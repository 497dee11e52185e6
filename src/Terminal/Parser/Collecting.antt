-- ===== src/Terminal/Parser/Collecting.antt =====
-- Numbers and semicolons in the middle of a control sequence: how the parameters collect.
use mathlib.Core.Path.{subst}
use watos.Common.{
  ℕ, zero, suc, ◌+◌, ◌*◌, ◌%◌, ◌^◌, ◌≤◌, ◌<◌, min, ◌≡◌, refl, sym, ap, ◌∙◌, inl, inr, Bool, true,
  false, ◌&&◌, Option, none, some, List, [], ◌∷◌, ◌++◌, append_assoc, arith, ltb, ◌==◌, Bool-cases,
  length, set, replicate, length-append,
}
use watos.Terminal.Parser.{
  max_params, at_ground, at_csi_param, Event, csi, Parser, between, push_param, csi_event,
  with_digit, on_csi_param, on_state, advance, with_event, run,
}

-- `n` places, filled from the front by the numbers as far as they fit, and 0 after them
abbrev pub padded : ℕ → List ℕ → List ℕ
padded zero vs = []
padded (suc n) [] = 0 ∷ padded n []
padded (suc n) (v ∷ vs) = v ∷ padded n vs

set-padded :
    (n : ℕ) (vs : List ℕ) (v : ℕ)
    → length vs < n
    → set (padded n vs) (length vs) v ≡ padded n (vs ++ v ∷ [])
set-padded zero vs v h = absurd (omega arith)
set-padded (suc n) [] v h = refl
set-padded (suc n) (x ∷ vs) v h = ap (λ ys. x ∷ ys) (set-padded n vs v (omega arith))

padded-full : (n : ℕ) (vs : List ℕ) (v : ℕ) → n ≤ length vs → padded n vs ≡ padded n (vs ++ v ∷ [])
padded-full zero vs v h = refl
padded-full (suc n) [] v h = absurd (omega arith)
padded-full (suc n) (x ∷ vs) v h = ap (λ ys. x ∷ ys) (padded-full n vs v (omega arith))

replicate-padded : (n : ℕ) → replicate n 0 ≡ padded n []
replicate-padded zero = refl
replicate-padded (suc n) = ap (λ ys. 0 ∷ ys) (replicate-padded n)

-- `p` in a sequence, with `values` read and `current` begun
abbrev pub collecting : Bool → List ℕ → ℕ → Parser → Parser
collecting is_private values current p = record p {
  state = at_csi_param;
  params = padded max_params values;
  param_count = min max_params (length values);
  current_param = current;
  intermediate = 0;
  private = is_private;
}

push_param-collecting :
    (is_private : Bool) (values : List ℕ) (current : ℕ) (p : Parser)
    → push_param current (collecting is_private values current p)
      ≡ collecting is_private (values ++ current ∷ []) current p
unfolding push_param
push_param-collecting is_private values current p =
    elim (Bool-cases (ltb (min max_params (length values)) max_params)) [
      | inl t ↦
          let room : length values < 16 = ground arith in
          let here : min 16 (length values) ≡ length values = ground arith in
          let count : min 16 (length values) + 1 ≡ min 16 (length (values ++ current ∷ [])) =
            ground (arith, length-append values (current ∷ [])) in
          rw (t, count, here, set-padded 16 values current room) refl
      | inr f ↦
          let full : 16 ≤ length values = ground arith in
          let count : min 16 (length values) ≡ min 16 (length (values ++ current ∷ [])) =
            ground (arith, length-append values (current ∷ [])) in
          rw (f, count, padded-full 16 values current full) refl
    ]

abbrev pub digits : List ℕ → List ℕ
digits [] = []
digits (d ∷ ds) = (b'0' + d) ∷ digits ds

abbrev pub all_digits : List ℕ → Bool
all_digits [] = true
all_digits (d ∷ ds) = ltb d 10 && all_digits ds

abbrev pub number_from : ℕ → List ℕ → ℕ
number_from v [] = v
number_from v (d ∷ ds) = number_from (v * 10 + d) ds

-- the number that the digits write, as an `i32`
abbrev pub number : List ℕ → ℕ
number ds = number_from 0 ds % 2 ^ 32

-- the parameters after the first, each behind a semicolon
abbrev pub further : List (List ℕ) → List ℕ
further [] = []
further (ds ∷ rest) = b';' ∷ (digits ds ++ further rest)

abbrev pub all_numbers : List (List ℕ) → Bool
all_numbers [] = true
all_numbers (ds ∷ rest) = all_digits ds && all_numbers rest

abbrev pub numbers : List (List ℕ) → List ℕ
numbers [] = []
numbers (ds ∷ rest) = number ds ∷ numbers rest

-- what a text gives after another
abbrev pub then_run : List ℕ → List Event × Parser → List Event × Parser
then_run ys (es, q) = (es ++ (run ys q).0, (run ys q).1)

pub run-append : (xs ys : List ℕ) (p : Parser) → run (xs ++ ys) p ≡ then_run ys (run xs p)
unfolding run
run-append [] ys p = refl
run-append (x ∷ xs) ys p =
    step (advance x p).0 (run (xs ++ ys) (advance x p).1) (run xs (advance x p).1)
      (run-append xs ys (advance x p).1)
  where
    step :
        (e : Option Event) (r s : List Event × Parser)
        → r ≡ then_run ys s
        → ◌≡◌ {A = List Event × Parser}
            (with_event e r.0, r.1)
            (then_run ys (with_event e s.0, s.1))
    step none r s h = h
    step (some e) r s h = ap (λ (t : List Event × Parser). (e ∷ t.0, t.1)) h

-- after a text that gives no event
pub run-quiet : (xs ys : List ℕ) (p q : Parser) → run xs p ≡ ([], q) → run (xs ++ ys) p ≡ run ys q
run-quiet xs ys p q h = run-append xs ys p ∙ ap (then_run ys) h

-- after a byte that gives no event
pub run-none :
    (b : ℕ) (bs : List ℕ) (p q : Parser) → advance b p ≡ (none, q) → run (b ∷ bs) p ≡ run bs q
unfolding run
run-none b bs p q h =
    ap (λ (r : Option Event × Parser). (with_event r.0 (run bs r.1).0, (run bs r.1).1)) h

module _ (is_private : Bool) (p : Parser) where
  digit-collecting :
      (values : List ℕ) (v d : ℕ)
      → ltb d 10 ≡ true
      → advance (b'0' + d) (collecting is_private values (v % 2 ^ 32) p)
        ≡ (none, collecting is_private values ((v * 10 + d) % 2 ^ 32) p)
  unfolding advance on_state on_csi_param
  digit-collecting values v d h =
      let here : between b'0' b'9' (b'0' + d) ≡ true = ground arith in
      let e : with_digit (v % 2 ^ 32) (b'0' + d) ≡ (v * 10 + d) % 2 ^ 32 = ground arith in
      rw here (ap (λ c. (none, collecting is_private values c p)) e)

  pub digits-collecting :
      (values : List ℕ) (v : ℕ) (ds : List ℕ)
      → all_digits ds ≡ true
      → run (digits ds) (collecting is_private values (v % 2 ^ 32) p)
        ≡ ([], collecting is_private values (number_from v ds % 2 ^ 32) p)
  unfolding run
  digits-collecting values v [] h = refl
  digits-collecting values v (d ∷ ds) h =
      let here : ltb d 10 ≡ true = ground arith in
      let rest : all_digits ds ≡ true = ground arith in
      rw (digit-collecting values v d here) (digits-collecting values (v * 10 + d) ds rest)

  semicolon-collecting :
      (values : List ℕ) (current : ℕ)
      → advance b';' (collecting is_private values current p)
        ≡ (none, collecting is_private (values ++ current ∷ []) 0 p)
  unfolding advance on_state on_csi_param
  semicolon-collecting values current = rw (push_param-collecting is_private values current p) refl

  final-collecting :
      (values : List ℕ) (current f : ℕ)
      → between 0x40 0x7e f ≡ true
      → advance f (collecting is_private values current p)
        ≡ csi_event f is_private (collecting is_private (values ++ current ∷ []) current p)
  unfolding advance on_state on_csi_param
  final-collecting values current f h =
      let no_digit : between b'0' b'9' f ≡ false = ground arith in
      let no_semicolon : (f == b';') ≡ false = ground arith in
      rw (no_digit, no_semicolon, h, push_param-collecting is_private values current p) refl

  digits-run :
      (values : List ℕ) (current : ℕ) (ds ys : List ℕ)
      → all_digits ds ≡ true
      → run (b';' ∷ (digits ds ++ ys)) (collecting is_private values current p)
        ≡ run ys (collecting is_private (values ++ current ∷ []) (number ds) p)
  digits-run values current ds ys h =
      run-none b';' (digits ds ++ ys) _ _ (semicolon-collecting values current)
      ∙ run-quiet (digits ds) ys _ _ (digits-collecting (values ++ current ∷ []) 0 ds h)

-- one event, of a sequence with these parameters, and the parser at rest
abbrev pub Gives : Bool → List ℕ → ℕ → List Event × Parser → Type 0
Gives is_private values f (events, q) =
    (events ≡ csi (padded max_params values) (min max_params (length values)) 0 f is_private ∷ [])
    × (q.state ≡ at_ground)

pub further-Gives :
    (is_private : Bool) (p : Parser) (values : List ℕ) (current f : ℕ) (rest : List (List ℕ))
    → between 0x40 0x7e f ≡ true
    → all_numbers rest ≡ true
    → Gives is_private
        (values ++ current ∷ numbers rest)
        f
        (run (further rest ++ f ∷ []) (collecting is_private values current p))
unfolding run csi_event
further-Gives is_private p values current f [] h g =
    rw (final-collecting is_private p values current f h) (refl, refl)
further-Gives is_private p values current f (ds ∷ rest) h g =
    let here : all_digits ds ≡ true = ground arith in
    let later : all_numbers rest ≡ true = ground arith in
    let quiet = digits-collecting is_private p (values ++ current ∷ []) 0 ds here in
    let after = further-Gives is_private p (values ++ current ∷ []) (number ds) f rest h later in
    let here_values = append_assoc values (current ∷ []) (number ds ∷ numbers rest) in
    let there = digits-run is_private p values current ds (further rest ++ f ∷ []) here in
    let same =
      ap (λ t. run (b';' ∷ t) (collecting is_private values current p))
        (append_assoc (digits ds) (further rest) (f ∷ []))
      ∙ there in
    rw (← here_values) (subst (Gives is_private _ f) (sym same) after)
