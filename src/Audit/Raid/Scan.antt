-- ===== src/Audit/Raid/Scan.antt =====
-- What the parts of the pattern of an array's health match, each for itself.
use Prim.Native.Char.{Char, code}
use mathlib.Core.Option.{some-injective}
use Prim.Native.String.append.{cons, nil}
use cloudfall.Base.{
  ℕ, ◌+◌, String, Bool, true, false, ◌||◌, Option, none, some, ◌<>◌, ◌==◌, nat_eq, if◌then◌else◌,
  Bool-cases,
}
use cloudfall.Base.{◌≡◌, ◌≢◌, ◌⊎◌, inl, inr, refl, sym, ap, ◌∙◌, arith, string_eq}
use cloudfall.Audit.Raid.{only_if, literal, many, members, ◌then_read◌}

-- Every character has a code that passes the test.
abbrev pub AllCodes : (ℕ → Bool) → String → Type 0
AllCodes test String.[] = Unit
AllCodes test (String.◌∷◌ c s) = (test (code c) ≡ true) × AllCodes test s

-- the number of `U` in a text
unfoldable pub working_marks : String → ℕ
working_marks String.[] = 0
working_marks (String.◌∷◌ c s) =
    let rest = working_marks s in if code c == 85 then rest + 1 else rest

pub many-eq-some :
    (test : ℕ → Bool) (seen : Bool) (s rest : String)
    → many test seen s ≡ some rest
    → (front : String) × (s ≡ front <> rest) × AllCodes test front × ((seen ≡ true) ⊎ (front ≢ ""))
unfolding many
many-eq-some test true String.[] rest h =
    let e : "" ≡ rest = some-injective _ _ h in ("", e ∙ sym (nil rest), tt, inl refl)
many-eq-some test false String.[] rest h = cc
many-eq-some test seen (String.◌∷◌ c s) rest h = elim (Bool-cases (test (code c))) [
  | inl t ↦
      let (front, e, all, _) = many-eq-some test true s rest (rw (many, t) at h) in
      (String.◌∷◌ c front, ap (String.◌∷◌ c) e ∙ sym (cons c front rest), (t, all), inr (λ k. cc))
  | inr f ↦ stop seen (rw (many, f) at h)
]
  where
    stop :
        (seen : Bool)
        → only_if seen (String.◌∷◌ c s) ≡ some rest
        → (front : String) × (String.◌∷◌ c s ≡ front <> rest)
          × AllCodes test front
          × ((seen ≡ true) ⊎ (front ≢ ""))
    stop true k = ("", some-injective _ _ k ∙ sym (nil rest), tt, inl refl)
    stop false k = cc

pub many_of :
    (test : ℕ → Bool) (seen : Bool) (front : String) (x : Char) (rest : String)
    → AllCodes test front
    → test (code x) ≡ false
    → (seen ≡ true) ⊎ (front ≢ "")
    → many test seen (front <> String.◌∷◌ x rest) ≡ some (String.◌∷◌ x rest)
unfolding many
many_of test true String.[] x rest all stops some_seen =
    rw (nil (String.◌∷◌ x rest), many, stops) refl
many_of test false String.[] x rest all stops (inl k) = cc
many_of test false String.[] x rest all stops (inr n) = absurd (n refl)
many_of test seen (String.◌∷◌ c front) x rest (t, all) stops some_seen =
    rw (cons c front (String.◌∷◌ x rest), many, t)
      (many_of test true front x rest all stops (inl refl))

pub members-eq-some :
    (seen : Bool) (up n : ℕ) (s rest : String)
    → members seen up s ≡ some (n, rest)
    → (front : String) × (s ≡ front <> rest)
      × AllCodes (λ c. c == 85 || c == 95) front
      × (n ≡ up + working_marks front)
      × ((seen ≡ true) ⊎ (front ≢ ""))
unfolding members working_marks
members-eq-some true up n String.[] rest h =
    let e : (up, "") ≡ (n, rest) = some-injective _ _ h in
    ("", ap (λ p. p.1) e ∙ sym (nil rest), tt, ap (λ p. p.0) (sym e) ∙ omega arith, inl refl)
members-eq-some false up n String.[] rest h = cc
members-eq-some seen up n (String.◌∷◌ c s) rest h = elim (Bool-cases (code c == 85)) [
  | inl t ↦
      let (front, e, all, count, _) =
        members-eq-some true (up + 1) n s rest (rw (members, t) at h) in
      (
        String.◌∷◌ c front,
        ap (String.◌∷◌ c) e ∙ sym (cons c front rest),
        (ground arith, all),
        rw (working_marks, t) (omega (arith, count)),
        inr (λ k. cc),
      )
  | inr f ↦ elim (Bool-cases (code c == 95)) [
    | inl t ↦
        let (front, e, all, count, _) =
          members-eq-some true up n s rest (rw (members, f, t) at h) in
        (
          String.◌∷◌ c front,
          ap (String.◌∷◌ c) e ∙ sym (cons c front rest),
          (ground arith, all),
          rw (working_marks, f) count,
          inr (λ k. cc),
        )
    | inr g ↦ stop seen (rw (members, f, g) at h)
  ]
]
  where
    stop :
        (seen : Bool)
        → ◌≡◌ {A = Option (ℕ × String)}
            (if seen then some (up, String.◌∷◌ c s) else none)
            (some (n, rest))
        → (front : String) × (String.◌∷◌ c s ≡ front <> rest)
          × AllCodes (λ c. c == 85 || c == 95) front
          × (n ≡ up + working_marks front)
          × ((seen ≡ true) ⊎ (front ≢ ""))
    stop true k =
        let e : (up, String.◌∷◌ c s) ≡ (n, rest) = some-injective _ _ k in
        ("", ap (λ p. p.1) e ∙ sym (nil rest), tt, ap (λ p. p.0) (sym e) ∙ omega arith, inl refl)
    stop false k = cc

pub members_of :
    (seen : Bool) (up : ℕ) (front : String) (x : Char) (rest : String)
    → AllCodes (λ c. c == 85 || c == 95) front
    → code x ≡ 93
    → (seen ≡ true) ⊎ (front ≢ "")
    → members seen up (front <> String.◌∷◌ x rest)
      ≡ some (up + working_marks front, String.◌∷◌ x rest)
unfolding members working_marks
members_of true up String.[] x rest all stops some_seen =
    rw (nil (String.◌∷◌ x rest), members) (ground arith)
members_of false up String.[] x rest all stops (inl k) = cc
members_of false up String.[] x rest all stops (inr n) = absurd (n refl)
members_of seen up (String.◌∷◌ c front) x rest (mark, all) stops some_seen =
    elim (Bool-cases (code c == 85)) [
      | inl t ↦
          rw (cons c front (String.◌∷◌ x rest), members, t, working_marks)
            (members_of true (up + 1) front x rest all stops (inl refl)
              ∙ ap (λ k. some (k, String.◌∷◌ x rest)) (omega arith))
      | inr f ↦
          let t : (code c == 95) ≡ true = ground arith in
          rw (cons c front (String.◌∷◌ x rest), members, f, t, working_marks)
            (members_of true up front x rest all stops (inl refl))
    ]

pub literal-eq-some :
    (n : ℕ) (s rest : String)
    → literal n s ≡ some rest
    → (c : Char) × (code c ≡ n) × (s ≡ String.◌∷◌ c rest)
literal-eq-some n String.[] rest h = cc
literal-eq-some n (String.◌∷◌ c s) rest h = elim (Bool-cases (code c == n)) [
  | inl t ↦
      let e : some s ≡ some rest = rw t at h in
      (c, ground arith, ap (String.◌∷◌ c) (some-injective _ _ e))
  | inr f ↦ let e : none ≡ some rest = rw f at h in cc
]

pub literal_of :
    (n : ℕ) (c : Char) (rest : String) → code c ≡ n → literal n (String.◌∷◌ c rest) ≡ some rest
literal_of n c rest e = ground arith

pub then_read-eq-some :
    {A B : Type 0} (read : Option A) (next : A → Option B) {b : B}
    → (read then_read next) ≡ some b
    → (a : A) × (read ≡ some a) × (next a ≡ some b)
then_read-eq-some none next h = cc
then_read-eq-some (some a) next h = (a, refl, h)

pub nonempty : {s : String} → (false ≡ true) ⊎ (s ≢ "") → s ≢ ""
nonempty (inl k) = cc
nonempty (inr n) = n
