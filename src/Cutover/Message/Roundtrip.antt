-- ===== src/Cutover/Message/Roundtrip.antt =====
-- What a name server sends, `parse_answers` reads.
use Prim.Native.Nat.{◌^◌}
use mathlib.Core.List.{append_assoc, append-nil}
use cloudfall.Base.{
  ℕ, suc, ◌+◌, ◌*◌, ◌/◌, ◌%◌, ◌<◌, true, false, Option, none, some, List, [], ◌∷◌, ◌++◌, length,
  length-append, ltb, ◌==◌, nat_eq, codes_eq, eq_self, ◌≡◌, refl, sym, ap, ◌∙◌, arith,
}
use cloudfall.Base.Bytes.{slice, take, drop, take_front, drop_front, drop-add, All}
use cloudfall.Base.Results.{ok, ◌>>=◌}
use cloudfall.Base.Text.{print_int}
use cloudfall.Base.Int.{pos}
use cloudfall.Cutover.Names.{join_dots, u16}
use cloudfall.Cutover.Names.Roundtrip.{IsLabel, wire_of, read_name-wire_of}
use cloudfall.Cutover.Message.{
  DnsAnswer, codes, type_name, dotted, unpack_header, unpack_counts, skip_questions, decode_rdata,
  keep, read_answers, parse_answers,
}
use cloudfall.Cutover.Message.Wire.{
  Rdata, Resource, type_of, bytes_of, IsRdata, IsResource, header_of, take-header_of,
  drop-header_of, length-header_of, wire_resource, wire_resources, Question, wire_questions,
  response, address, address6, name_server, alias, untold,
}

-- The loop over the questions passes over their bytes.
skip_questions-wire_questions :
    (qs : List Question) (payload : List ℕ) (offset : ℕ) (rest : List ℕ)
    → All (λ q. All IsLabel q.labels) qs
    → drop offset payload ≡ wire_questions qs ++ rest
    → skip_questions (length qs) payload offset ≡ ok (offset + length (wire_questions qs))
unfolding wire_questions skip_questions
skip_questions-wire_questions [] payload offset rest h here = ap ok (omega arith)
skip_questions-wire_questions (q ∷ qs) payload offset rest (h, t) here =
    let fixed = u16 q.record_type ++ u16 1 in
    let start : drop offset payload ≡ wire_of q.labels ++ ((fixed ++ wire_questions qs) ++ rest) =
      here ∙ append_assoc (wire_of q.labels) (fixed ++ wire_questions qs) rest in
    let name =
      read_name-wire_of q.labels payload offset ((fixed ++ wire_questions qs) ++ rest) h start in
    let end = offset + length (wire_of q.labels) in
    let next : drop (end + 4) payload ≡ wire_questions qs ++ rest =
      drop-add end 4 payload
      ∙ ap (drop 4) (
          drop-add offset (length (wire_of q.labels)) payload
          ∙ ap (drop (length (wire_of q.labels))) start
          ∙ drop_front (wire_of q.labels) ((fixed ++ wire_questions qs) ++ rest))
      ∙ drop_front fixed (wire_questions qs ++ rest) in
    let step : skip_questions (suc (length qs)) payload offset
        ≡ skip_questions (length qs) payload (end + 4) =
      rw (skip_questions, name) in
    step
    ∙ skip_questions-wire_questions qs payload (end + 4) rest t next
    ∙ ap ok (omega (arith, length-append (wire_of q.labels) (fixed ++ wire_questions qs)))

counts_of :
    (q a : ℕ) (payload : List ℕ)
    → q < 65536
    → a < 65536
    → slice payload 4 2 ≡ u16 q
    → slice payload 6 2 ≡ u16 a
    → unpack_counts payload ≡ ok (q, a)
unfolding unpack_counts
counts_of q a payload hq ha eq ea =
    let x : q / 256 % 256 * 256 + q % 256 ≡ q = omega arith in
    let y : a / 256 % 256 * 256 + a % 256 ≡ a = omega arith in
    rw (unpack_counts, eq, ea) (λ i. ok (x i, y i))

-- a number as decimal digits, and four of them with dots between
abbrev decimal : ℕ → List ℕ
decimal n = codes (print_int (pos n))

unfoldable pub dotted_quad : ℕ → ℕ → ℕ → ℕ → List ℕ
dotted_quad a b c d = decimal a ++ (46 ∷ (decimal b ++ (46 ∷ (decimal c ++ (46 ∷ decimal d)))))

module _ (inet_ntop : List ℕ → List ℕ) where
  -- the value that a client is told of, if any
  abbrev pub value_of : Rdata → Option (List ℕ)
  value_of (address a b c d) = some (dotted (a ∷ b ∷ c ∷ d ∷ []))
  value_of (address6 raw) = some (inet_ntop raw)
  value_of (name_server ls) = some (join_dots ls)
  value_of (alias ls) = some (join_dots ls)
  value_of (untold t raw) = none

  abbrev told : Resource → Option (List ℕ) → List DnsAnswer → List DnsAnswer
  told r = keep inet_ntop (join_dots r.owner) (record {
    record_type = type_of r.rdata;
    ttl = r.ttl;
    data_length = length (bytes_of r.rdata);
  })

  -- What a client is told of one record: its owner, the name of its type, its time to live and its value,
  -- an address of IPv4 as four decimal numbers with dots between; nothing of another type.
  unfoldable pub answers_for : List ℕ → ℕ → Rdata → List DnsAnswer
  answers_for name ttl (address a b c d) =
      record { name = name; record_type = "A"; ttl = ttl; value = dotted_quad a b c d } ∷ []
  answers_for name ttl (address6 raw) =
      record { name = name; record_type = "AAAA"; ttl = ttl; value = inet_ntop raw } ∷ []
  answers_for name ttl (name_server ls) =
      record { name = name; record_type = "NS"; ttl = ttl; value = join_dots ls } ∷ []
  answers_for name ttl (alias ls) =
      record { name = name; record_type = "CNAME"; ttl = ttl; value = join_dots ls } ∷ []
  answers_for name ttl (untold t raw) = []

  unfoldable pub answers_of : List Resource → List DnsAnswer
  answers_of [] = []
  answers_of (r ∷ rs) = answers_for (join_dots r.owner) r.ttl r.rdata ++ answers_of rs

  told-answers_for :
      (name : List ℕ) (ttl length : ℕ) (d : Rdata) (later : List DnsAnswer)
      → keep inet_ntop name
          (record { record_type = type_of d; ttl = ttl; data_length = length })
          (value_of d)
          later
        ≡ answers_for name ttl d ++ later
  unfolding answers_for type_name dotted dotted_quad join_dots nat_eq
  told-answers_for name ttl length (address a b c d) later = refl
  told-answers_for name ttl length (address6 raw) later = refl
  told-answers_for name ttl length (name_server ls) later = refl
  told-answers_for name ttl length (alias ls) later = refl
  told-answers_for name ttl length (untold t raw) later = refl

  unpack_header_of :
      (t ttl n : ℕ)
      → t < 65536
      → ttl < 2 ^ 32
      → n < 65536
      → unpack_header (header_of t ttl n)
        ≡ ok (record { record_type = t; ttl = ttl; data_length = n })
  unfolding header_of
  unpack_header_of t ttl n ht hl hn =
      let a : t / 256 % 256 * 256 + t % 256 ≡ t = omega arith in
      let b : ttl / 16777216 % 256 * 16777216
            + ttl / 65536 % 256 * 65536
            + ttl / 256 % 256 * 256
            + ttl % 256
          ≡ ttl =
        omega arith in
      let c : n / 256 % 256 * 256 + n % 256 ≡ n = omega arith in
      λ i. ok (record { record_type = a i; ttl = b i; data_length = c i })

  -- What `_decode_rdata` makes of the bytes of a record, where they stand in the payload.
  decode_rdata-bytes_of :
      (d : Rdata) (payload : List ℕ) (offset : ℕ) (rest : List ℕ)
      → IsRdata d
      → drop offset payload ≡ bytes_of d ++ rest
      → decode_rdata inet_ntop payload offset (type_of d) (bytes_of d) ≡ ok (value_of d)
  unfolding decode_rdata
  decode_rdata-bytes_of (address a b c d) payload offset rest h here = ground arith
  decode_rdata-bytes_of (address6 raw) payload offset rest h here = ground arith
  decode_rdata-bytes_of (name_server ls) payload offset rest (h, _) here =
      ground (arith, read_name-wire_of ls payload offset rest)
  decode_rdata-bytes_of (alias ls) payload offset rest (h, _) here =
      ground (arith, read_name-wire_of ls payload offset rest)
  decode_rdata-bytes_of (untold t raw) payload offset rest h here = ground arith

  length-bytes_of : (d : Rdata) → IsRdata d → (length (bytes_of d) < 65536) × (type_of d < 65536)
  length-bytes_of (address a b c d) h = omega arith
  length-bytes_of (address6 raw) h = omega arith
  length-bytes_of (name_server ls) (_, h) = omega arith
  length-bytes_of (alias ls) (_, h) = omega arith
  length-bytes_of (untold t raw) h = omega arith

  -- One round of the loop over the answers.
  read_answers-wire_resource :
      (r : Resource) (n : ℕ) (payload : List ℕ) (offset : ℕ) (rest : List ℕ)
      → IsResource r
      → drop offset payload ≡ wire_resource r ++ rest
      → read_answers inet_ntop (suc n) payload offset ≡ (
          read_answers inet_ntop n payload (offset + length (wire_resource r)) >>= λ later.
          ok (told r (value_of r.rdata) later))
  unfolding read_answers wire_resource
  read_answers-wire_resource r n payload offset rest (named, short, valid) here =
      let raw = bytes_of r.rdata in
      let header = header_of (type_of r.rdata) r.ttl (length raw) in
      let end = offset + length (wire_of r.owner) in
      let start : drop offset payload ≡ wire_of r.owner ++ ((header ++ raw) ++ rest) =
        here ∙ append_assoc (wire_of r.owner) (header ++ raw) rest in
      let name = read_name-wire_of r.owner payload offset ((header ++ raw) ++ rest) named start in
      let behind : drop end payload ≡ header ++ (raw ++ rest) =
        drop-add offset (length (wire_of r.owner)) payload
        ∙ ap (drop (length (wire_of r.owner))) start
        ∙ drop_front (wire_of r.owner) ((header ++ raw) ++ rest)
        ∙ append_assoc header raw rest in
      let fixed : slice payload end 10 ≡ header =
        ap (take 10) behind ∙ take-header_of (type_of r.rdata) r.ttl (length raw) (raw ++ rest) in
      let body : drop (end + 10) payload ≡ raw ++ rest =
        drop-add end 10 payload
        ∙ ap (drop 10) behind
        ∙ drop-header_of (type_of r.rdata) r.ttl (length raw) (raw ++ rest) in
      let content : slice payload (end + 10) (length raw) ≡ raw =
        ap (take (length raw)) body ∙ take_front raw rest in
      let (few, small) = length-bytes_of r.rdata valid in
      let told_header = unpack_header_of (type_of r.rdata) r.ttl (length raw) small short few in
      let value = decode_rdata-bytes_of r.rdata payload (end + 10) rest valid body in
      rw (read_answers, name, fixed, told_header, content, value)
        (ap
          (λ k.
            read_answers inet_ntop n payload k >>= λ later. ok (told r (value_of r.rdata) later))
          (omega (
            arith,
            length-append (wire_of r.owner) (header ++ raw),
            length-append header raw,
            length-header_of (type_of r.rdata) r.ttl (length raw),
          )))

  read_answers-wire_resources :
      (rs : List Resource) (payload : List ℕ) (offset : ℕ) (rest : List ℕ)
      → All IsResource rs
      → drop offset payload ≡ wire_resources rs ++ rest
      → read_answers inet_ntop (length rs) payload offset ≡ ok (answers_of rs)
  unfolding wire_resources answers_of
  read_answers-wire_resources [] payload offset rest h here = unfold read_answers in refl
  read_answers-wire_resources (r ∷ rs) payload offset rest (h, t) here =
      let start : drop offset payload ≡ wire_resource r ++ (wire_resources rs ++ rest) =
        here ∙ append_assoc (wire_resource r) (wire_resources rs) rest in
      let next : drop (offset + length (wire_resource r)) payload ≡ wire_resources rs ++ rest =
        drop-add offset (length (wire_resource r)) payload
        ∙ ap (drop (length (wire_resource r))) start
        ∙ drop_front (wire_resource r) (wire_resources rs ++ rest) in
      read_answers-wire_resource r (length rs) payload offset (wire_resources rs ++ rest) h start
      ∙ ap (λ m. m >>= λ later. ok (told r (value_of r.rdata) later))
          (read_answers-wire_resources rs payload (offset + length (wire_resource r)) rest t next)
      ∙ ap ok (
          told-answers_for (join_dots r.owner) r.ttl (length (bytes_of r.rdata)) r.rdata
            (answers_of rs))

  -- A well-formed response is read as the answers that it was made from, those of other types left out:
  -- the owners' names, the names of the types, the times to live and the values are the ones sent, in
  -- their order, an IPv6 address as `inet_ntop` prints it. Its names are written in full; there are fewer than 65536 questions and answers, and the id is the one asked for.
  pub parse_answers-response :
      (id flags : ℕ) (questions : List Question) (answers : List Resource)
      → length questions < 65536
      → length answers < 65536
      → All (λ q. All IsLabel q.labels) questions
      → All IsResource answers
      → parse_answers inet_ntop (response id flags questions answers) (u16 id)
        ≡ ok (answers_of answers)
  unfolding parse_answers response unpack_counts
  parse_answers-response id flags questions answers few_questions few_answers asked sent =
      let payload : List ℕ = response id flags questions answers in
      let body = wire_questions questions ++ wire_resources answers in
      let long : ltb (length payload) 12 ≡ false = ground arith in
      let same : (take 2 payload == u16 id) ≡ true = unfold take in eq_self (u16 id) in
      let counts : unpack_counts payload ≡ ok (length questions, length answers) =
        counts_of (length questions) (length answers) payload few_questions few_answers
          (unfold drop take in refl) (unfold drop take in refl) in
      let start : drop 12 payload ≡ body = unfold drop in refl in
      let skipped =
        skip_questions-wire_questions questions payload 12 (wire_resources answers) asked start in
      let next : drop (12 + length (wire_questions questions)) payload
          ≡ wire_resources answers ++ [] =
        drop-add 12 (length (wire_questions questions)) payload
        ∙ ap (drop (length (wire_questions questions))) start
        ∙ drop_front (wire_questions questions) (wire_resources answers)
        ∙ sym (append-nil (wire_resources answers)) in
      rw (parse_answers, long, same, counts, skipped)
        (read_answers-wire_resources answers payload (12 + length (wire_questions questions)) []
          sent next)
