-- ===== src/Audit/Raid/Arrays.antt =====
-- The pattern of an array's health, apart from the code that looks for it.
use Prim.Native.Char.{Char, code}
use mathlib.Core.Option.{some-injective}
use cloudfall.Base.{
  ℕ, ◌+◌, String, Bool, false, ◌&&◌, ◌||◌, Option, none, some, List, [], ◌∷◌, ◌<>◌, leb, ◌==◌,
  nat_eq, Option-cases,
}
use cloudfall.Base.{◌≡◌, ◌≢◌, inl, inr, refl, sym, ap, ◌∙◌, arith, string_eq}
use cloudfall.Base.Text.{is_space}
use cloudfall.Audit.Raid.{literal, many, members, health_here, array_health, ◌then_read◌}
use cloudfall.Audit.Raid.Scan.{
  AllCodes, working_marks, many-eq-some, many_of, members-eq-some, members_of, literal-eq-some,
  literal_of, then_read-eq-some, nonempty,
}

-- A text begins with `[`, digits, `/`, digits, `]`, white space, `[`, marks `U` and `_` of which so many
-- are `U`, and `]`.
pub record BeginsWithHealth (s : String) (up : ℕ) : Type 0 where
  pub open_counts : Char
  pub total : String
  pub slash : Char
  pub present : String
  pub close_counts : Char
  pub gap : String
  pub open_marks : Char
  pub marks : String
  pub close_marks : Char
  pub rest : String
  pub codes :
      (code open_counts ≡ 91)
      × (code slash ≡ 47)
      × (code close_counts ≡ 93)
      × (code open_marks ≡ 91)
      × (code close_marks ≡ 93)
  pub digits :
      (total ≢ "")
      × AllCodes (λ c. leb 48 c && leb c 57) total
      × (present ≢ "")
      × AllCodes (λ c. leb 48 c && leb c 57) present
  pub spaces : (gap ≢ "") × AllCodes is_space gap
  pub all_marks :
      (marks ≢ "") × AllCodes (λ c. c == 85 || c == 95) marks × (working_marks marks ≡ up)
  pub reads :
      s
      ≡ String.◌∷◌ open_counts (
          total
          <> String.◌∷◌ slash (
              present
              <> String.◌∷◌ close_counts
                  (gap <> String.◌∷◌ open_marks (marks <> String.◌∷◌ close_marks rest))))

abbrev digit : ℕ → Bool
digit c = leb 48 c && leb c 57

-- what is left after the counts, and after the second bracket
abbrev after_counts : String → Option String
after_counts s =
    literal 91 s
    then_read many digit false
    then_read literal 47
    then_read many digit false
    then_read literal 93

abbrev closed : ℕ × String → Option ℕ
closed (up, rest) = elim (literal 93 rest) [ none ↦ none | some _ ↦ some up ]

record Counts (s rest : String) : Type 0 where
  open_counts : Char
  total : String
  slash : Char
  present : String
  close_counts : Char
  codes : (code open_counts ≡ 91) × (code slash ≡ 47) × (code close_counts ≡ 93)
  digits : (total ≢ "") × AllCodes digit total × (present ≢ "") × AllCodes digit present
  reads :
      s
      ≡ String.◌∷◌ open_counts (total <> String.◌∷◌ slash (present <> String.◌∷◌ close_counts rest))

after_counts-eq-some : (s rest : String) → after_counts s ≡ some rest → Counts s rest
after_counts-eq-some s rest h =
    let (s4, h4, g5) =
      then_read-eq-some
        (literal 91 s then_read many digit false then_read literal 47 then_read many digit false)
        (literal 93) h in
    let (s3, h3, g4) =
      then_read-eq-some (literal 91 s then_read many digit false then_read literal 47)
        (many digit false) h4 in
    let (s2, h2, g3) =
      then_read-eq-some (literal 91 s then_read many digit false) (literal 47) h3 in
    let (s1, h1, g2) = then_read-eq-some (literal 91 s) (many digit false) h2 in
    let (a, is_a, e1) = literal-eq-some 91 s s1 h1 in
    let (total, e2, all_total, n_total) = many-eq-some digit false s1 s2 g2 in
    let (b, is_b, e3) = literal-eq-some 47 s2 s3 g3 in
    let (present, e4, all_present, n_present) = many-eq-some digit false s3 s4 g4 in
    let (d, is_d, e5) = literal-eq-some 93 s4 rest g5 in
    record {
      open_counts = a;
      total = total;
      slash = b;
      present = present;
      close_counts = d;
      codes = (is_a, is_b, is_d);
      digits = (nonempty n_total, all_total, nonempty n_present, all_present);
      reads =
          e1
          ∙ ap (String.◌∷◌ a)
              (e2 ∙ ap (λ z. total <> z) (e3 ∙ ap (String.◌∷◌ b) (e4 ∙ ap (λ z. present <> z) e5)));
    }

health_here-eq-some : (s : String) (up : ℕ) → health_here s ≡ some up → BeginsWithHealth s up
unfolding health_here
health_here-eq-some s up h =
    let ((n, s8), h8, g9) =
      then_read-eq-some
        (after_counts s
          then_read many is_space false
          then_read literal 91
          then_read members false 0)
        closed h in
    let (s7, h7, g8) =
      then_read-eq-some (after_counts s then_read many is_space false then_read literal 91)
        (members false 0) h8 in
    let (s6, h6, g7) =
      then_read-eq-some (after_counts s then_read many is_space false) (literal 91) h7 in
    let (s5, h5, g6) = then_read-eq-some (after_counts s) (many is_space false) h6 in
    let counts = after_counts-eq-some s s5 h5 in
    let (gap, e6, all_gap, n_gap) = many-eq-some is_space false s5 s6 g6 in
    let (d, is_d, e7) = literal-eq-some 91 s6 s7 g7 in
    let (marks, e8, all_marks, count, n_marks) = members-eq-some false 0 n s7 s8 g8 in
    let (rest, g10, same) = then_read-eq-some (literal 93 s8) (λ _. some n) g9 in
    let in_all : working_marks marks ≡ n = omega (arith, count) in
    let (e, is_e, e9) = literal-eq-some 93 s8 rest g10 in
    record {
      open_counts = counts.open_counts;
      total = counts.total;
      slash = counts.slash;
      present = counts.present;
      close_counts = counts.close_counts;
      gap = gap;
      open_marks = d;
      marks = marks;
      close_marks = e;
      rest = rest;
      codes = (counts.codes.0, counts.codes.1, counts.codes.2, is_d, is_e);
      digits = counts.digits;
      spaces = (nonempty n_gap, all_gap);
      all_marks = (nonempty n_marks, all_marks, in_all ∙ some-injective _ _ same);
      reads =
          counts.reads
          ∙ ap
              (λ z. String.◌∷◌ counts.open_counts (
                counts.total
                <> String.◌∷◌ counts.slash (counts.present <> String.◌∷◌ counts.close_counts z)))
              (e6 ∙ ap (λ z. gap <> z) (e7 ∙ ap (String.◌∷◌ d) (e8 ∙ ap (λ z. marks <> z) e9)));
    }

health_here_of : (s : String) (up : ℕ) → BeginsWithHealth s up → health_here s ≡ some up
unfolding health_here
health_here_of s up b =
    let (c1, c2, c3, c4, c5) = b.codes in
    let (n_total, all_total, n_present, all_present) = b.digits in
    let tail5 = b.gap <> String.◌∷◌ b.open_marks (b.marks <> String.◌∷◌ b.close_marks b.rest) in
    let tail3 = b.present <> String.◌∷◌ b.close_counts tail5 in
    let slash_stops : digit (code b.slash) ≡ false = ap digit c2 ∙ refl in
    let close_stops : digit (code b.close_counts) ≡ false = ap digit c3 ∙ refl in
    let open_stops : is_space (code b.open_marks) ≡ false =
      unfold is_space in ap is_space c4 ∙ refl in
    let m1 = literal_of 91 b.open_counts (b.total <> String.◌∷◌ b.slash tail3) c1 in
    let m2 = many_of digit false b.total b.slash tail3 all_total slash_stops (inr n_total) in
    let m3 = literal_of 47 b.slash tail3 c2 in
    let m4 =
      many_of digit false b.present b.close_counts tail5 all_present close_stops (inr n_present) in
    let m5 = literal_of 93 b.close_counts tail5 c3 in
    let m6 =
      many_of is_space false b.gap b.open_marks (b.marks <> String.◌∷◌ b.close_marks b.rest)
        b.spaces.1 open_stops (inr b.spaces.0) in
    let m7 = literal_of 91 b.open_marks (b.marks <> String.◌∷◌ b.close_marks b.rest) c4 in
    let m8 = members_of false 0 b.marks b.close_marks b.rest b.all_marks.1 c5 (inr b.all_marks.0) in
    let m9 = literal_of 93 b.close_marks b.rest c5 in
    let count : 0 + working_marks b.marks ≡ up = omega (arith, b.all_marks.2) in
    ap health_here b.reads
    ∙ rw (health_here, m1, m2, m3, m4, m5, m6, m7, m8)
        (ap (λ o. o then_read λ _. some (0 + working_marks b.marks)) m9 ∙ ap some count)

-- The numbers of working devices of the arrays that a text tells of, one for each place where the
-- pattern begins.
pub data Arrays : String → List ℕ → Type 0 where
  no_text : Arrays String.[] []
  array :
      {c : Char} {s : String} {up : ℕ} {ups : List ℕ}
      → BeginsWithHealth (String.◌∷◌ c s) up
      → Arrays s ups
      → Arrays (String.◌∷◌ c s) (up ∷ ups)
  no_array :
      {c : Char} {s : String} {ups : List ℕ}
      → ((up : ℕ) → ¬ BeginsWithHealth (String.◌∷◌ c s) up)
      → Arrays s ups
      → Arrays (String.◌∷◌ c s) ups

pub array_health-Arrays : (s : String) → Arrays s (array_health s)
unfolding array_health
array_health-Arrays String.[] = no_text
array_health-Arrays (String.◌∷◌ c s) = elim (Option-cases (health_here (String.◌∷◌ c s))) [
  | inl e ↦
      rw (array_health, e)
        (no_array (λ up b. let k = sym e ∙ health_here_of (String.◌∷◌ c s) up b in cc)
          (array_health-Arrays s))
  | inr (up, e) ↦
      rw (array_health, e)
        (array (health_here-eq-some (String.◌∷◌ c s) up e) (array_health-Arrays s))
]

-- A text tells of one list of arrays.
pub Arrays-unique : (s : String) (ups : List ℕ) → Arrays s ups → ups ≡ array_health s
unfolding array_health
Arrays-unique String.[] _ no_text = refl
Arrays-unique (String.◌∷◌ c s) _ (array {up = up} {ups = ups} b a) =
    let e = health_here_of (String.◌∷◌ c s) up b in
    rw (array_health, e) (ap (λ z. up ∷ z) (Arrays-unique s ups a))
Arrays-unique (String.◌∷◌ c s) ups (no_array n a) =
    elim (Option-cases (health_here (String.◌∷◌ c s))) [
      | inl e ↦ rw (array_health, e) (Arrays-unique s ups a)
      | inr (up, e) ↦ absurd (n up (health_here-eq-some (String.◌∷◌ c s) up e))
    ]
