-- ===== src/Cutover/Probe.antt =====
-- `SystemDnsProbe` and `check_ttl` of cutover.py.
pub mod Laws
use cloudfall.Base.{
  ℕ, zero, suc, ◌≤◌, String, Bool, true, false, ◌&&◌, not, Option, none, some, List, [], ◌∷◌, ◌++◌,
  select, contains, leb, ltb, ◌==◌, nat_eq, string_eq, codes_eq, if◌then◌else◌, Eq,
}
use native.Mathlib.Decide.{ℕ_discrete}
use cloudfall.Base.{String-discrete}
use cloudfall.Base.Dict.{Dict, lookup}
use cloudfall.Base.Text.Parts.{splitlines, words}
use cloudfall.Base.Results.{Result, ok, err, ◌>>=◌}
use cloudfall.Cutover.Names.{
  DnsError, cutover_dns_invalid, cutover_dns_empty, cutover_dns_unreachable,
  cutover_nameserver_missing, cutover_nameserver_unreachable, cutover_resolver_missing, value_error,
  Dns, Label, join_dots, split_dots, rstrip_dots, u16, encode_query,
}
use cloudfall.Cutover.Message.{DnsAnswer, codes, parse_answers}

abbrev pub Name : Type 0
Name = List ℕ

DnsAnswer-discrete : Discrete DnsAnswer
DnsAnswer-discrete = hlevel (String-discrete, ℕ_discrete)

instance unfoldable pub answer_eq : Eq DnsAnswer
unfolding DnsAnswer-discrete ℕ_discrete
answer_eq = record { dec = DnsAnswer-discrete }

-- What the DNS client uses of the machine.
pub record Network : Type 0 where
  -- the text of `/etc/resolv.conf`, if there is such a file
  pub resolv_conf : Option (List ℕ)
  -- the number in the two bytes of `os.urandom`, for a query
  pub random : Name → Name → ℕ → ℕ
  -- what comes back from that server for those bytes; `none` is an `OSError`
  pub exchange : Name → List ℕ → Option (List ℕ)
  -- the address that `socket.getaddrinfo` gives first for a name server; `none` is an `OSError`
  pub address_of : Name → Option Name
  -- `socket.inet_ntop(socket.AF_INET6, rdata)`
  pub inet_ntop : List ℕ → List ℕ

abbrev nameserver_in : List (List Name) → Dns Name
nameserver_in [] = err cutover_resolver_missing
nameserver_in ((key ∷ value ∷ rest) ∷ lines) =
    let later = nameserver_in lines in if key == codes "nameserver" then ok value else later
nameserver_in (fields ∷ lines) = nameserver_in lines

abbrev fields_of : List (List ℕ) → List (List Name)
fields_of [] = []
fields_of (line ∷ lines) = words (λ c. c) line ∷ fields_of lines

-- `tuple(dict.fromkeys(answers))`: the first of equal answers is kept
unfoldable pub distinct : List DnsAnswer → List DnsAnswer → List DnsAnswer
distinct seen [] = []
distinct seen (a ∷ rest) =
    let again = distinct seen rest in
    let new = a ∷ distinct (a ∷ seen) rest in if contains seen a then again else new

module _ (net : Network) where
  -- `_system_resolver`
  unfoldable pub system_resolver : Dns Name
  unfolding splitlines words
  system_resolver = elim net.resolv_conf [
    | none ↦ err cutover_resolver_missing
    | some text ↦ nameserver_in (fields_of (splitlines (λ c. c) text))
  ]

  -- `_query`
  unfoldable pub query : Name → Name → ℕ → Dns (List DnsAnswer)
  unfolding encode_query parse_answers
  query server name record_type =
      let id = net.random server name record_type in
      do
        bytes ← encode_query id name record_type
        elim (net.exchange server bytes) [
          | none ↦ err cutover_dns_unreachable
          | some payload ↦ parse_answers net.inet_ntop payload (u16 id)
        ]

  abbrev reach : List DnsAnswer → Dns Name → Dns Name
  reach [] otherwise = otherwise
  reach (a ∷ rest) otherwise = elim (net.address_of a.value) [
    | none ↦ err cutover_nameserver_unreachable
    | some address ↦ ok address
  ]

  -- the loop of `_zone_nameserver`, over the zones from the longest on
  unfoldable pub zone_of : Name → List Label → Dns Name
  unfolding query
  zone_of resolver [] = err cutover_nameserver_missing
  zone_of resolver (l ∷ []) = err cutover_nameserver_missing
  zone_of resolver (l ∷ m ∷ rest) = do
    answers ← query resolver (join_dots (l ∷ m ∷ rest)) 2
    reach (select (λ a. a.record_type == "NS") answers) (zone_of resolver (m ∷ rest))

  -- `_zone_nameserver`
  unfoldable pub zone_nameserver : Name → Name → Dns Name
  unfolding zone_of
  zone_nameserver resolver hostname = zone_of resolver (split_dots (rstrip_dots hostname))

  abbrev or_empty : List DnsAnswer → Dns (List DnsAnswer)
  or_empty [] = err cutover_dns_empty
  or_empty (a ∷ rest) = ok (a ∷ rest)

  -- `SystemDnsProbe.authoritative_answers`, with its `resolver_address`
  unfoldable pub authoritative_answers : Option Name → Name → Dns (List DnsAnswer)
  unfolding system_resolver zone_nameserver query distinct
  authoritative_answers given hostname = do
    resolver ← elim given [ none ↦ system_resolver | some address ↦ ok address ]
    nameserver ← zone_nameserver resolver hostname
    a ← query nameserver hostname 1
    aaaa ← query nameserver hostname 28
    or_empty (distinct [] (a ++ aaaa))

-- whether an exception is a `CutoverError`
abbrev pub is_cutover : DnsError → Bool
is_cutover cutover_dns_invalid = true
is_cutover cutover_dns_empty = true
is_cutover cutover_dns_unreachable = true
is_cutover cutover_nameserver_missing = true
is_cutover cutover_nameserver_unreachable = true
is_cutover cutover_resolver_missing = true
is_cutover _ = false

-- `max(answer.ttl for answer in answers)`
abbrev larger : ℕ → ℕ → ℕ
larger a b = if leb a b then b else a

unfoldable pub max_ttl : ℕ → List DnsAnswer → ℕ
max_ttl best [] = best
max_ttl best (a ∷ rest) = max_ttl (larger best a.ttl) rest

abbrev pub highest_ttl : List DnsAnswer → Dns ℕ
highest_ttl [] = err value_error
highest_ttl (a ∷ rest) = ok (max_ttl a.ttl rest)

-- what `check_ttl` says of one domain
pub data TtlEntry : Type 0 where
  measured : Name → List DnsAnswer → ℕ → TtlEntry
  unmeasured : Name → DnsError → TtlEntry

-- `entry` and, if there is one, its offence
pub data Offence : Type 0 where
  failed_probe : Name → DnsError → Offence
  long_lived : Name → ℕ → Offence

module _ (probe : Name → Dns (List DnsAnswer)) (max_ttl_seconds : ℕ) where
  -- `authoritative_answers(name)`, the `CutoverError` caught
  unfoldable pub measure : Name → Dns (TtlEntry × List Offence)
  unfolding max_ttl
  measure name = elim (probe name) [
    | err e ↦ if is_cutover e then ok (unmeasured name e, failed_probe name e ∷ []) else err e
    | ok answers ↦ (do
      highest ← highest_ttl answers
      ok (
        measured name answers highest,
        if ltb max_ttl_seconds highest then long_lived name highest ∷ [] else [],
      ))
  ]

  -- the loop of `check_ttl`, over the names of the domains that are `dns-only`
  unfoldable pub check_ttl : List Name → Dns (List TtlEntry × List Offence)
  unfolding measure
  check_ttl [] = ok ([], [])
  check_ttl (name ∷ rest) = do
    (entry, offence) ← measure name
    (entries, offences) ← check_ttl rest
    ok (entry ∷ entries, offence ++ offences)
