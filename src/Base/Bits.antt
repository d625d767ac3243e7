-- ===== src/Base/Bits.antt =====
-- Laws of `bit_and` and `bit_or` at variables, from the digit recursion that the native
-- operations stand for, and tables over one byte.
use Prim.Native.Nat.{
  ℕ, zero, suc, ◌+◌, ◌*◌, ◌/◌, ◌%◌, ◌^◌, ◌≤◌, ◌<◌, min, max, bit_and, bit_or, digits,
  bit_and-bitwise, bit_or-bitwise,
}
use mathlib.Core.Path.{◌≡◌, refl, ap, sym, ◌∙◌}
use mathlib.Core.Bool.{Bool, true, false, ◌||◌, not}
use native.Mathlib.Omega.{arith}
use native.Mathlib.Decide.{dec_le}
use native.Mathlib.Nat.{pow-suc}
use ebf_leveldb_sep_kv.Base.Tests.{◌==◌, ==_iff, if◌then◌else◌}

module _ (rest : ℕ → ℕ) (op : ℕ → ℕ → ℕ) where
  -- A round past the last digit of the first number changes nothing.
  spare_round :
      (rounds x y : ℕ) → x ≤ rounds → digits rest op (suc rounds) x y ≡ digits rest op rounds x y
  spare_round zero zero y fits = refl
  spare_round zero (suc x) y fits = elim fits [ ]
  spare_round (suc rounds) zero y fits = refl
  spare_round (suc rounds) (suc x) y fits =
      let deeper = spare_round rounds (suc x / 2) (y / 2) (omega arith) in omega (arith, deeper)

  own_rounds : (rounds x y : ℕ) → x ≤ rounds → digits rest op rounds x y ≡ digits rest op x x y
  own_rounds zero zero y fits = refl
  own_rounds zero (suc x) y fits = elim fits [ ]
  own_rounds (suc rounds) x y fits = elim (dec_le x rounds) [
    | yes fewer ↦ spare_round rounds x y fewer ∙ own_rounds rounds x y fewer
    | no last ↦ let all : suc rounds ≡ x = omega arith in ap (λ t. digits rest op t x y) all
  ]

  first_digit :
      (x y : ℕ)
      → digits rest op (suc x) (suc x) y
        ≡ op (suc x % 2) (y % 2) + 2 * digits rest op (suc x / 2) (suc x / 2) (y / 2)
  first_digit x y = let same = own_rounds x (suc x / 2) (y / 2) (omega arith) in omega (arith, same)

zero-bit_and : (y : ℕ) → bit_and 0 y ≡ 0
zero-bit_and y = bit_and-bitwise 0 y

zero-bit_or : (y : ℕ) → bit_or 0 y ≡ y
zero-bit_or y = bit_or-bitwise 0 y

-- Each operation from the lowest digits and the halves.
and_halves : (x y : ℕ) → bit_and x y ≡ min (x % 2) (y % 2) + 2 * bit_and (x / 2) (y / 2)
and_halves zero y = omega (arith, zero-bit_and y, zero-bit_and (y / 2))
and_halves (suc x) y =
    bit_and-bitwise (suc x) y
    ∙ first_digit (λ t. 0) min x y
    ∙ ap (λ t. min (suc x % 2) (y % 2) + 2 * t) (sym (bit_and-bitwise (suc x / 2) (y / 2)))

or_halves : (x y : ℕ) → bit_or x y ≡ max (x % 2) (y % 2) + 2 * bit_or (x / 2) (y / 2)
or_halves zero y = omega (arith, zero-bit_or y, zero-bit_or (y / 2))
or_halves (suc x) y =
    bit_or-bitwise (suc x) y
    ∙ first_digit (λ t. t) max x y
    ∙ ap (λ t. max (suc x % 2) (y % 2) + 2 * t) (sym (bit_or-bitwise (suc x / 2) (y / 2)))

flipped : (n a b : ℕ) → a ≤ n → b ≤ n → bit_or a b ≡ bit_or b a
flipped zero zero zero p q = refl
flipped zero zero (suc _) p q = elim q [ ]
flipped zero (suc _) b p q = elim p [ ]
flipped (suc n) a b p q =
    omega
      (arith, or_halves a b, or_halves b a, flipped n (a / 2) (b / 2) (omega arith) (omega arith))

pub bit_or_comm : (a b : ℕ) → bit_or a b ≡ bit_or b a
bit_or_comm a b = flipped (a + b) a b (omega arith) (omega arith)

double_shift : (b k : ℕ) → b * 2 ^ suc k ≡ 2 * (b * 2 ^ k)
double_shift b k = omega (arith, ap (λ (t : ℕ). b * t) (pow-suc 2 k))

-- `acc | (b << k)` is a sum while `acc` fits below bit `k`.
pub bit_or_above : (k acc b : ℕ) → acc < 2 ^ k → bit_or acc (b * 2 ^ k) ≡ acc + b * 2 ^ k
bit_or_above zero acc b h =
    let e : acc ≡ 0 = omega arith in rw e (omega (arith, zero-bit_or (b * 2 ^ 0)))
bit_or_above (suc k) acc b h = omega (
  arith,
  or_halves acc (b * 2 ^ suc k),
  double_shift b k,
  halved,
  bit_or_above k (acc / 2) b (omega (arith, pow-suc 2 k)),
)
  where
    halved : bit_or (acc / 2) (b * 2 ^ suc k / 2) ≡ bit_or (acc / 2) (b * 2 ^ k)
    halved = ap (bit_or (acc / 2)) (omega (arith, double_shift b k))

odd_step : (v b : ℕ) → bit_or v (2 * b) ≡ 2 * bit_or (v / 2) b + v % 2
odd_step v b = omega (arith, or_halves v (2 * b), ap (bit_or (v / 2)) half)
  where
    half : 2 * b / 2 ≡ b
    half = omega arith

bit_or_one : (v : ℕ) → bit_or v 1 ≡ 2 * bit_or (v / 2) 0 + 1
bit_or_one v = omega (arith, or_halves v 1)

bit_or_eight : (v : ℕ) → bit_or v 8 ≡ 8 * bit_or (v / 8) 1 + v % 8
bit_or_eight v = omega (arith, odd_step v 4, odd_step (v / 2) 2, odd_step (v / 2 / 2) 1, thrice)
  where
    thrice : bit_or (v / 2 / 2 / 2) 1 ≡ bit_or (v / 8) 1
    thrice = ap (λ (t : ℕ). bit_or t 1) (omega arith)

bit_or_128_split : (v : ℕ) → bit_or v 128 ≡ 16 * bit_or (v / 16) 8 + v % 16
bit_or_128_split v = omega (
  arith,
  odd_step v 64,
  odd_step (v / 2) 32,
  odd_step (v / 2 / 2) 16,
  odd_step (v / 2 / 2 / 2) 8,
  e,
)
  where
    e : bit_or (v / 2 / 2 / 2 / 2) 8 ≡ bit_or (v / 16) 8
    e = ap (λ (t : ℕ). bit_or t 8) (omega arith)

-- The low byte of `v | 128` is the low seven bits of `v` under a set top bit.
pub bit_or_128 : (v : ℕ) → bit_or v 128 % 256 ≡ v % 128 + 128
bit_or_128 v = omega (arith, bit_or_128_split v, bit_or_eight (v / 16), bit_or_one (v / 16 / 8))

and_odd_step : (v b : ℕ) → bit_and v (2 * b + 1) ≡ 2 * bit_and (v / 2) b + v % 2
and_odd_step v b = omega (arith, and_halves v (2 * b + 1), ap (bit_and (v / 2)) half)
  where
    half : (2 * b + 1) / 2 ≡ b
    half = omega arith

bit_and_15 : (v b : ℕ) → bit_and v (16 * b + 15) ≡ 16 * bit_and (v / 16) b + v % 16
bit_and_15 v b = omega (
  arith,
  ap (bit_and v) e,
  and_odd_step v (2 * (2 * (2 * b + 1) + 1) + 1),
  and_odd_step (v / 2) (2 * (2 * b + 1) + 1),
  and_odd_step (v / 2 / 2) (2 * b + 1),
  and_odd_step (v / 2 / 2 / 2) b,
  ap (λ (t : ℕ). bit_and t b) q,
)
  where
    e : 16 * b + 15 ≡ 2 * (2 * (2 * (2 * b + 1) + 1) + 1) + 1
    e = omega arith

    q : v / 2 / 2 / 2 / 2 ≡ v / 16
    q = omega arith

no_ones : (steps v : ℕ) → v ≤ steps → bit_and v 0 ≡ 0
no_ones zero v fits = let nothing : v ≡ 0 = omega arith in rw nothing refl
no_ones (suc steps) v fits = omega (arith, no_ones steps (v / 2) (omega arith), and_halves v 0)

bit_and-le_fuel : (n a b : ℕ) → b ≤ n → bit_and a b ≤ b
bit_and-le_fuel n a zero h = omega (arith, no_ones a a (omega arith))
bit_and-le_fuel zero a (suc b) h = absurd (omega arith)
bit_and-le_fuel (suc n) a (suc b) h =
    omega (arith, and_halves a (suc b), bit_and-le_fuel n (a / 2) (suc b / 2) (omega arith))

pub bit_and-le : (a b : ℕ) → bit_and a b ≤ b
bit_and-le a b = bit_and-le_fuel b a b (omega arith)

bit_and_seven : (v : ℕ) → bit_and v 7 ≡ v % 8
bit_and_seven v = omega (
  arith,
  and_odd_step v 3,
  and_odd_step (v / 2) 1,
  and_odd_step (v / 2 / 2) 0,
  no_ones (v / 2 / 2 / 2) (v / 2 / 2 / 2) (omega arith),
)

-- The masks of seven and of eight ones.
pub bit_and_127 : (v : ℕ) → bit_and v 127 ≡ v % 128
bit_and_127 v = omega (arith, bit_and_15 v 7, bit_and_seven (v / 16))

pub bit_and_255 : (v : ℕ) → bit_and v 255 ≡ v % 256
bit_and_255 v = omega (
  arith,
  bit_and_15 v 15,
  bit_and_15 (v / 16) 0,
  no_ones (v / 16 / 16) (v / 16 / 16) (omega arith),
)

-- Facts on one byte, checked value by value.
for_all_below : (ℕ → Bool) → ℕ → Bool
for_all_below test zero = true
for_all_below test (suc bound) = if test bound then for_all_below test bound else false

at_each :
    (test : ℕ → Bool) (bound x : ℕ) → for_all_below test bound ≡ true → x < bound → test x ≡ true
unfolding for_all_below
at_each test zero x passed small = elim small [ ]
at_each test (suc bound) x passed small = ground (arith, at_each test bound x)

top_bit_table : for_all_below (λ x. bit_and x 128 == x / 128 * 128) 256 ≡ true
unfolding for_all_below
top_bit_table = refl

pub bit_and_128 : (b : ℕ) → b < 256 → bit_and b 128 ≡ b / 128 * 128
bit_and_128 b h = (==_iff _ _).0 (at_each _ 256 b top_bit_table h)

-- Setting bit `j` of a byte sets it, and clears no bit `i`.
set_bit_table :
    for_all_below (λ j. for_all_below (λ x. not (bit_and (bit_or x (2 ^ j)) (2 ^ j) == 0)) 256) 8
    ≡ true
unfolding for_all_below
set_bit_table = refl

keep_bit_table :
    for_all_below
      (λ i.
        for_all_below
          (λ j.
            for_all_below
              (λ x. (bit_and x (2 ^ i) == 0) || not (bit_and (bit_or x (2 ^ j)) (2 ^ i) == 0))
              256)
          8)
      8
    ≡ true
unfolding for_all_below
keep_bit_table = refl

byte_table : for_all_below (λ j. for_all_below (λ x. bit_or x (2 ^ j) / 256 == 0) 256) 8 ≡ true
unfolding for_all_below
byte_table = refl

pub set_bit_sets : (x j : ℕ) → x < 256 → j < 8 → (bit_and (bit_or x (2 ^ j)) (2 ^ j) == 0) ≡ false
set_bit_sets x j hx hj = ground (arith, at_each _ 256 x (at_each _ 8 j set_bit_table hj) hx)

pub set_bit_keeps :
    (x i j : ℕ)
    → x < 256
    → i < 8
    → j < 8
    → (bit_and x (2 ^ i) == 0) ≡ false
    → (bit_and (bit_or x (2 ^ j)) (2 ^ i) == 0) ≡ false
set_bit_keeps x i j hx hi hj h =
    ground (arith, at_each _ 256 x (at_each _ 8 j (at_each _ 8 i keep_bit_table hi) hj) hx)

pub set_bit_byte : (x j : ℕ) → x < 256 → j < 8 → bit_or x (2 ^ j) < 256
set_bit_byte x j hx hj = ground (arith, at_each _ 256 x (at_each _ 8 j byte_table hj) hx)

le-bit_or_fuel : (n a b : ℕ) → a ≤ n → a ≤ bit_or a b
le-bit_or_fuel zero a b h = omega arith
le-bit_or_fuel (suc n) zero b h = omega arith
le-bit_or_fuel (suc n) (suc a) b h =
    omega (arith, or_halves (suc a) b, le-bit_or_fuel n (suc a / 2) (b / 2) (omega arith))

pub le-bit_or : (a b : ℕ) → a ≤ bit_or a b
le-bit_or a b = le-bit_or_fuel a a b (omega arith)

pub le-bit_or_right : (a b : ℕ) → b ≤ bit_or a b
le-bit_or_right a b = omega (arith, le-bit_or b a, bit_or_comm a b)
