-- ===== src/Readline/History/Searches.antt =====
-- What the searches of the history keep.
use watos.Common.{
  is_nil, ℕ, zero, suc, ◌+◌, ◌-◌, ◌≤◌, ◌≡◌, refl, ◌⊎◌, inl, inr, Bool, false, ◌||◌, not, Option,
  none, some, List, arith, ltb, ◌==◌, Bool-cases, length,
}
use watos.Readline.History.{
  History, start_navigation, older, newer, search_backward, or_current, search_forward,
}
use watos.Readline.History.Kept.{
  IsValid, Keeps, if-both, entry_at-found, moved-IsValid, start_navigation-IsValid,
}

module _ (contains : List ℕ → List ℕ → Bool) where
  -- A position that a search finds is one of the entries'.
  abbrev Within : History → Option (Option (ℕ × List ℕ)) → Type 0
  Within h r =
      (r ≡ some none)
      ⊎ ((pos : ℕ) × (line : List ℕ) × (r ≡ some (some (pos, line))) × (pos ≤ length h.entries))

  older-Within :
      (pattern : List ℕ) (h : History) (n pos : ℕ) → Within h (older contains pattern h n pos)
  unfolding older
  older-Within pattern h zero pos = inl refl
  older-Within pattern h (suc n) pos =
      if-both (Within h) (ltb (length h.entries) (pos + 1)) _ _ (λ t. inl refl)
        λ f.
          let (line, e) = entry_at-found h (pos + 1) (omega arith) (ground arith) in
          rw e (
            if-both (Within h) (contains line pattern) _ _
              (λ t. inr (pos + 1, line, refl, ground arith))
              (λ g. older-Within pattern h n (pos + 1)))

  newer-Within :
      (pattern : List ℕ) (h : History) (n : ℕ)
      → n ≤ length h.entries
      → Within h (newer contains pattern h n)
  unfolding newer
  newer-Within pattern h zero k = inl refl
  newer-Within pattern h (suc n) k =
      let (line, e) = entry_at-found h (suc n) (omega arith) k in
      rw e (
        if-both (Within h) (contains line pattern) _ _ (λ t. inr (suc n, line, refl, k))
          (λ g. newer-Within pattern h n (omega arith)))

  pub search_backward-Keeps :
      (pattern current : List ℕ) (h : History)
      → IsValid h
      → Keeps (search_backward contains pattern current h)
  unfolding search_backward
  search_backward-Keeps pattern current h v =
      let started = start_navigation current h in
      let w = start_navigation-IsValid current h v in
      if-both Keeps (is_nil h.entries || is_nil pattern) _ _ (λ t. (none, h, refl, v))
        λ f. elim (older-Within pattern started (length h.entries) started.position) [
          | inl e ↦ rw e (none, started, refl, w)
          | inr (pos, line, e, k) ↦
              rw e
                (some line, record started { position = pos }, refl, moved-IsValid started pos w k)
        ]

  pub search_forward-Keeps :
      (pattern : List ℕ) (h : History) → IsValid h → Keeps (search_forward contains pattern h)
  unfolding search_forward or_current
  search_forward-Keeps pattern h v =
      let inside = v.inside in
      if-both Keeps (not h.navigating || h.position == 0 || is_nil pattern) _ _
        (λ t. (none, h, refl, v))
        λ f. elim (newer-Within pattern h (h.position - 1) (omega arith)) [
          | inr (pos, line, e, k) ↦
              rw e (some line, record h { position = pos }, refl, moved-IsValid h pos v k)
          | inl e ↦ rw e (elim (Bool-cases (contains h.current_edit pattern)) [
            | inl t ↦ rw t (
              some h.current_edit,
              record h { position = 0; navigating = false },
              refl,
              record { few = v.few; unrepeated = v.unrepeated; inside = omega arith },
            )
            | inr t ↦ rw t (none, h, refl, v)
          ])
        ]
