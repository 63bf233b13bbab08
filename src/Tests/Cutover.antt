-- ===== src/Tests/Cutover.antt =====
-- A response of a name server, a name with a pointer, and a measurement of two domains.
use cloudfall.Base.{
  ℕ, ◌+◌, List, [], ◌∷◌, ◌++◌, length, nat_eq, ◌≡◌, ◌≢◌, ◌↔◌, refl, arith, string_eq, codes_eq,
}
use cloudfall.Base.Bytes.{drop, All}
use cloudfall.Base.Results.{ok, err}
use cloudfall.Cutover.Names.{
  Dns, struct_error, still_reading, Label, split_dots, rstrip_dots, join_dots, encode_label,
  encode_labels, encode_name, u16, read_name,
}
use cloudfall.Cutover.Names.Ends.{read_name_ends}
use cloudfall.Cutover.Names.Roundtrip.{
  IsLabel, wire_of, read_name-encode_name, pointer_to, read_name_of_pointer,
}
use cloudfall.Cutover.Message.{DnsAnswer, codes, parse_answers}
use cloudfall.Cutover.Message.Wire.{Question, Resource, address, untold, IsRdata, response}
use cloudfall.Cutover.Message.Roundtrip.{answers_of, parse_answers-response}
use cloudfall.Cutover.Probe.{Name, TtlEntry, measured, max_ttl, check_ttl, measure}
use cloudfall.Cutover.Probe.Laws.{Settled, check_ttl_passes_iff, check_ttl_of_other}

abbrev example_org : List Label
example_org = codes "example" ∷ codes "org" ∷ []

example_org-IsLabel : All IsLabel example_org
unfolding nat_eq
example_org-IsLabel = ((omega arith, omega arith, refl), ((omega arith, omega arith, refl), tt))

-- a pointer to itself
read_name_ends_example : read_name (192 ∷ 0 ∷ []) 0 ≢ err still_reading
read_name_ends_example = read_name_ends (192 ∷ 0 ∷ []) 0

abbrev asked_name : List ℕ
asked_name = codes "example.org."

parts_of_asked : split_dots (rstrip_dots asked_name) ≡ example_org
unfolding split_dots rstrip_dots nat_eq
parts_of_asked = refl

encoded_asked : encode_name asked_name ≡ ok (wire_of example_org)
unfolding encode_name encode_labels encode_label split_dots rstrip_dots wire_of nat_eq
encoded_asked = refl

read_name-encode_name_example :
    read_name (1 ∷ 2 ∷ (wire_of example_org ++ (9 ∷ []))) 2
    ≡ ok (rstrip_dots asked_name, 2 + length (wire_of example_org))
read_name-encode_name_example =
    read_name-encode_name asked_name (wire_of example_org) (1 ∷ 2 ∷ []) (9 ∷ [])
      (rw (parts_of_asked) example_org-IsLabel) encoded_asked

-- the name at 1, and a pointer to it at 14
abbrev with_pointer : List ℕ
with_pointer = 5 ∷ (wire_of example_org ++ (pointer_to 1 ++ (8 ∷ [])))

read_name_of_pointer_example : read_name with_pointer 14 ≡ ok (join_dots example_org, 16)
read_name_of_pointer_example =
    read_name_of_pointer example_org with_pointer 14 1 (pointer_to 1 ++ (8 ∷ [])) (8 ∷ [])
      example_org-IsLabel (omega arith) (unfold drop in refl) (unfold drop wire_of in refl)

abbrev question : Question
question = record { labels = example_org; record_type = 1 }

-- an address, and a text record
abbrev sent : List Resource
sent =
    record { owner = example_org; ttl = 300; rdata = address 93 184 216 34 }
    ∷ record { owner = example_org; ttl = 60; rdata = untold 16 (4 ∷ 1 ∷ []) }
    ∷ []

untold_text : IsRdata (untold 16 (4 ∷ 1 ∷ []))
untold_text = (
  omega arith,
  omega arith,
  (λ q. omega arith),
  (λ q. omega arith),
  (λ q. omega arith),
  (λ q. omega arith),
)

abbrev no_ipv6 : List ℕ → List ℕ
no_ipv6 raw = raw

parse_answers-response_example :
    parse_answers no_ipv6 (response 513 0x8180 (question ∷ []) sent) (u16 513)
    ≡ ok (answers_of no_ipv6 sent)
parse_answers-response_example =
    parse_answers-response no_ipv6 513 0x8180 (question ∷ []) sent (omega arith) (omega arith)
      (example_org-IsLabel, tt)
      (
        (example_org-IsLabel, omega arith, tt),
        ((example_org-IsLabel, omega arith, untold_text), tt),
      )

abbrev short_lived : DnsAnswer
short_lived = record {
  name = codes "example.org";
  record_type = "A";
  ttl = 60;
  value = codes "192.0.2.1";
}

-- the first domain is answered for, any other meets a response cut short
abbrev probe : Name → Dns (List DnsAnswer)
probe [] = err struct_error
probe (c ∷ name) = ok (short_lived ∷ [])

abbrev measured_a : List TtlEntry
measured_a = measured (codes "a") (short_lived ∷ []) 60 ∷ []

check_ttl_passes_iff_example :
    ((entries : List TtlEntry) × (check_ttl probe 300 (codes "a" ∷ []) ≡ ok (entries, [])))
    ↔ All (Settled probe 300) (codes "a" ∷ [])
check_ttl_passes_iff_example = check_ttl_passes_iff probe 300 (codes "a" ∷ [])

check_ttl_of_other_example : check_ttl probe 300 ((codes "a" ∷ []) ++ ([] ∷ [])) ≡ err struct_error
check_ttl_of_other_example =
    check_ttl_of_other probe 300 (codes "a" ∷ []) [] [] measured_a [] struct_error
      (unfold check_ttl measure max_ttl in refl) refl refl
