-- ===== src/Tests/Footers.antt =====
-- A footer with two handles, and bytes behind it.
use ebf_leveldb_sep_kv.Base.{[], ◌∷◌, ◌++◌, ◌≡◌, arith}
use ebf_leveldb_sep_kv.Format.{Footer, FooterResult.decoded, footer_encode, footer_decode}
use ebf_leveldb_sep_kv.Format.RoundTrip.{footer_decode-encode}

abbrev two_handles : Footer
two_handles = record { metaindex_handle = (4096, 300); index_handle = (4401, 70000) }

footer_decode-encode_example :
    footer_decode (footer_encode two_handles ++ (7 ∷ 8 ∷ [])) ≡ decoded two_handles (7 ∷ 8 ∷ [])
footer_decode-encode_example =
    footer_decode-encode two_handles (7 ∷ 8 ∷ []) (omega arith) (omega arith) (omega arith)
      (omega arith)
