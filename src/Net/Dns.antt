-- ===== src/Net/Dns.antt =====
-- runtime/pullrun-net/src/dns.rs: the DNS proxy. `utf8` and `parse_ip` are the standard library's,
-- and `forward` is what the upstream server answers, if it does.
pub mod Names
pub mod Answers
use pullrun.Base.{
  ℕ, zero, suc, ◌+◌, ◌-◌, ◌*◌, ◌%◌, Bool, true, false, not, ◌||◌, Option, none, some, List, [], ◌∷◌,
  ◌++◌, ◌==◌, ltb, if◌then◌else◌, length, take, drop,
}
use pullrun.Base.Words.{Bytes}
use pullrun.Base.Text.{split_on}
use pullrun.Base.Map
use pullrun.Base.Map.{Map}
use pullrun.Store.Digest.{digest_eq}

abbrev pub Records : Type 0
Records = Map Bytes Bytes

abbrev pub add_record : Bytes → Bytes → Records → Records
add_record name ip records = Map.put records name ip

abbrev pub remove_record : Bytes → Records → Records
remove_record name records = Map.remove records name

abbrev pub resolve_local : Bytes → Records → Option Bytes
resolve_local name records = Map.get records name

-- `endless` is the end of the rounds.
pub data Qname : Type 0 where
  qname : Bytes → Qname
  malformed endless : Qname

abbrev pub dotted : Bytes → Bytes → Bytes
dotted [] label = label
dotted (c ∷ name) label = (c ∷ name) ++ b'.' ∷ label

module _ (utf8 : Bytes → Bool) where
  unfoldable pub qname_loop : ℕ → Bytes → Bytes → Qname
  qname_loop fuel name [] = qname name
  qname_loop zero name (len ∷ buf) = endless
  qname_loop (suc fuel) name (len ∷ buf) = elim (len == 0) [
    | true ↦ qname name
    | false ↦ elim (ltb (length buf) len || not (utf8 (take len buf))) [
      | true ↦ malformed
      | false ↦ qname_loop fuel (dotted name (take len buf)) (drop len buf)
    ]
  ]

  unfoldable pub parse_qname : Bytes → Qname
  parse_qname buf = qname_loop (length buf) [] buf

-- `resp[2] = a; resp[3] = b`
unfoldable pub set_flags : ℕ → ℕ → Bytes → Bytes
set_flags a b (i ∷ j ∷ x ∷ y ∷ resp) = i ∷ j ∷ a ∷ b ∷ resp
set_flags a b resp = resp

abbrev pub encode_labels : List Bytes → Bytes
encode_labels [] = 0 ∷ []
encode_labels (label ∷ labels) = length label % 256 ∷ label ++ encode_labels labels

abbrev pub encode_name : Bytes → Bytes
encode_name name = encode_labels (split_on b'.' name)

abbrev pub octets : Option (ℕ × ℕ × ℕ × ℕ) → Bytes
octets none = 0 ∷ 0 ∷ 0 ∷ 0 ∷ []
octets (some (a, b, c, d)) = a ∷ b ∷ c ∷ d ∷ []

abbrev pub answer : Bytes → Option (ℕ × ℕ × ℕ × ℕ) → Bytes
answer name ip = encode_name name ++ 0 ∷ 1 ∷ 0 ∷ 1 ∷ 0 ∷ 0 ∷ 0 ∷ 60 ∷ 0 ∷ 4 ∷ octets ip

unfoldable pub build_servfail_response : Bytes → Bytes
build_servfail_response query = set_flags 129 130 query

unfoldable pub build_refused_response : Bytes → Bytes
build_refused_response query = set_flags 129 5 query

abbrev pub first_or_zero : Bytes → ℕ
first_or_zero [] = 0
first_or_zero (c ∷ s) = c

abbrev pub qtype : Bytes → ℕ
qtype query =
    first_or_zero (drop (length query - 4) query) * 256
    + first_or_zero (drop (length query - 3) query)

module _ (utf8 : Bytes → Bool) (parse_ip : Bytes → Option (ℕ × ℕ × ℕ × ℕ))
    (forward : Bytes → Option Bytes) where
  unfoldable pub build_a_response : Bytes → Bytes → Bytes → Bytes
  build_a_response query name ip =
      if ltb (length query) 12 then query else set_flags 129 128 query ++ answer name (parse_ip ip)

  abbrev pub forwarded : Bytes → Option Bytes → Bytes
  forwarded query none = build_servfail_response query
  forwarded query (some response) = response

  abbrev pub reply : Bytes → Bytes → Option Bytes → Bytes
  reply query name (some ip) = build_a_response query name ip
  reply query name none =
      if qtype query == 1 then forwarded query (forward query) else build_refused_response query

  abbrev pub reply_to : Records → Bytes → Qname → Option Bytes
  reply_to records query (qname name) = some (reply query name (resolve_local name records))
  reply_to records query malformed = none
  reply_to records query endless = none

  unfoldable pub handle_query : Records → Bytes → Option Bytes
  handle_query records query =
      if ltb (length query) 12
      then none
      else reply_to records query (parse_qname utf8 (drop 12 query))
