-- ===== src/Net/Dns/Answers.antt =====
-- runtime/pullrun-net/src/dns.rs: what the answers of the proxy keep of the query.
use pullrun.Base.{
  ℕ, ◌-◌, ◌≡◌, refl, subst, sym, ap, ◌∙◌, inl, inr, Bool, true, false, Option, none, some, [], ◌∷◌,
  ◌++◌, ◌==◌, ltb, if◌then◌else◌, length, take, drop, take-append_length, append-nil, Bool-cases,
  some-inj, arith,
}
use pullrun.Base.Words.{Bytes}
use pullrun.Net.Dns.{
  Records, Qname, qname, malformed, endless, parse_qname, set_flags, answer,
  build_servfail_response, build_refused_response, build_a_response, qtype, forwarded, reply,
  reply_to, resolve_local, handle_query,
}

-- The query with other flags, and maybe more behind it.
abbrev pub Echoes : Bytes → Bytes → Type 0
Echoes query response =
    (take 2 response ≡ take 2 query) × (take (length query - 4) (drop 4 response) ≡ drop 4 query)

take-all : (s : Bytes) → take (length s) s ≡ s
take-all s = ap (take (length s)) (sym (append-nil s)) ∙ take-append_length s []

Echoes-set_flags :
    (a b : ℕ) (query more : Bytes)
    → ltb (length query) 12 ≡ false
    → Echoes query (set_flags a b query ++ more)
unfolding set_flags
Echoes-set_flags a b [] more h = cc
Echoes-set_flags a b (i ∷ []) more h = cc
Echoes-set_flags a b (i ∷ j ∷ []) more h = cc
Echoes-set_flags a b (i ∷ j ∷ x ∷ []) more h = cc
Echoes-set_flags a b (i ∷ j ∷ x ∷ y ∷ query) more h =
    let n : length (i ∷ j ∷ x ∷ y ∷ query) - 4 ≡ length query = omega arith in
    (refl, rw n (take-append_length query more))

Echoes-flags :
    (a b : ℕ) (query : Bytes) → ltb (length query) 12 ≡ false → Echoes query (set_flags a b query)
Echoes-flags a b query h =
    subst (Echoes query) (append-nil (set_flags a b query)) (Echoes-set_flags a b query [] h)

module _ (utf8 : Bytes → Bool) (parse_ip : Bytes → Option (ℕ × ℕ × ℕ × ℕ))
    (forward : Bytes → Option Bytes) (query : Bytes) (enough : ltb (length query) 12 ≡ false)
    (silent : forward query ≡ none) where
  a_response-Echoes :
      (name ip : Bytes) → Echoes query (build_a_response utf8 parse_ip forward query name ip)
  unfolding build_a_response
  a_response-Echoes name ip =
      rw enough (Echoes-set_flags 129 128 query (answer name (parse_ip ip)) enough)

  either :
      (b : Bool) (x y : Bytes) → Echoes query x → Echoes query y → Echoes query (if b then x else y)
  either true x y f g = f
  either false x y f g = g

  reply-Echoes :
      (name : Bytes) (o : Option Bytes) → Echoes query (reply utf8 parse_ip forward query name o)
  unfolding build_servfail_response build_refused_response
  reply-Echoes name (some ip) = a_response-Echoes name ip
  reply-Echoes name none =
      either (qtype query == 1) _ _
        (subst (λ o. Echoes query (forwarded utf8 parse_ip forward query o)) (sym silent)
          (Echoes-flags 129 130 query enough))
        (Echoes-flags 129 5 query enough)

  reply_to-Echoes :
      (records : Records) (n : Qname) (response : Bytes)
      → reply_to utf8 parse_ip forward records query n ≡ some response
      → Echoes query response
  reply_to-Echoes records (qname name) response e =
      subst (Echoes query) (some-inj e) (reply-Echoes name (resolve_local name records))
  reply_to-Echoes records malformed response e = cc
  reply_to-Echoes records endless response e = cc

-- Where the upstream server is silent, every response to a query has the identifier of the query, and
-- from the fifth byte on it starts with all that the query has there. The count of answers is among
-- these bytes: a response with an address keeps the count of the query.
pub handle_query-Echoes :
    (utf8 : Bytes → Bool) (parse_ip : Bytes → Option (ℕ × ℕ × ℕ × ℕ))
    (forward : Bytes → Option Bytes) (records : Records) (query response : Bytes)
    → forward query ≡ none
    → handle_query utf8 parse_ip forward records query ≡ some response
    → Echoes query response
unfolding handle_query
handle_query-Echoes utf8 parse_ip forward records query response silent e =
    elim (Bool-cases (ltb (length query) 12)) [
      | inl y ↦ cc (rw y at e)
      | inr n ↦
          reply_to-Echoes utf8 parse_ip forward query n silent records
            (parse_qname utf8 (drop 12 query)) response (rw n at e)
    ]
