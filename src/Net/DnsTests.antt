-- ===== src/Net/DnsTests.antt =====
-- runtime/pullrun-net/src/dns.rs: a query for the address of `x`.
use pullrun.Base.{ℕ, ◌≡◌, refl, true, Bool, Option, none, some, [], ◌∷◌, ◌++◌, All, arith}
use pullrun.Base.Words.{Bytes}
use pullrun.Base.Text.{split_on, eq_bytes}
use pullrun.Base.Map
use pullrun.Net.Dns.{
  Records, qname, qname_loop, parse_qname, set_flags, encode_name, build_a_response, handle_query,
}
use pullrun.Net.Dns.Names.{IsLabel, parse-encode_name}
use pullrun.Net.Dns.Answers.{Echoes, handle_query-Echoes}

abbrev utf8 : Bytes → Bool
utf8 s = true

abbrev parse_ip : Bytes → Option (ℕ × ℕ × ℕ × ℕ)
parse_ip s = some (10, 42, 0, 5)

abbrev silent : Bytes → Option Bytes
silent s = none

abbrev query : Bytes
query = 7 ∷ 9 ∷ 1 ∷ 0 ∷ 0 ∷ 1 ∷ 0 ∷ 0 ∷ 0 ∷ 0 ∷ 0 ∷ 0 ∷ 1 ∷ b'x' ∷ 0 ∷ 0 ∷ 1 ∷ 0 ∷ 1 ∷ []

abbrev records : Records
records = (b'x' ∷ [], b'i' ∷ []) ∷ []

abbrev response : Bytes
response =
    7 ∷ 9 ∷ 129 ∷ 128 ∷ 0 ∷ 1 ∷ 0 ∷ 0 ∷ 0 ∷ 0 ∷ 0 ∷ 0 ∷ 1 ∷ b'x' ∷ 0 ∷ 0 ∷ 1 ∷ 0 ∷ 1 ∷ 1 ∷ b'x' ∷ 0
    ∷ 0 ∷ 1 ∷ 0 ∷ 1 ∷ 0 ∷ 0 ∷ 0 ∷ 60 ∷ 0 ∷ 4 ∷ 10 ∷ 42 ∷ 0 ∷ 5 ∷ []

answered : handle_query utf8 parse_ip silent records query ≡ some response
unfolding handle_query parse_qname qname_loop Map.get eq_bytes build_a_response set_flags split_on
answered = refl

handle_query-Echoes_example : Echoes query response
handle_query-Echoes_example =
    handle_query-Echoes utf8 parse_ip silent records query response refl answered

abbrev name : Bytes
name = b'a' ∷ b'b' ∷ b'.' ∷ b'c' ∷ []

name-labels : All (IsLabel utf8) (split_on b'.' name)
unfolding split_on
name-labels = ((omega arith, omega arith, refl), ((omega arith, omega arith, refl), tt))

parse-encode_name_example : parse_qname utf8 (encode_name name ++ 5 ∷ []) ≡ qname name
parse-encode_name_example = parse-encode_name utf8 name (5 ∷ []) name-labels
