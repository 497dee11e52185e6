-- ===== src/Vfs/Permissions/Groups.antt =====
-- Supplementary groups: membership, and what adding a group does.
use watos.Common.{
  ℕ, zero, suc, ◌+◌, ◌≤◌, ◌<◌, ◌≡◌, refl, ◌∙◌, inl, inr, Bool, true, false, ◌&&◌, ◌||◌, Option,
  some, List, [], ◌∷◌, arith, ltb, leb, ◌==◌, if◌then◌else◌, ==_iff, Bool-cases, length, set, take,
  length-set,
}
use watos.Vfs.Permissions.{Credentials, ngroups_max, in_group, in_groups, add_group}

-- The array of groups has its 16 places, and the count lies within it.
pub record HasRoom (c : Credentials) : Type 0 where
  pub places : length c.groups ≡ ngroups_max
  pub within : c.ngroups ≤ ngroups_max

abbrev pub contains : List ℕ → ℕ → Bool
contains [] gid = false
contains (x ∷ xs) gid = x == gid || contains xs gid

-- the groups that the credentials stand for
abbrev pub members : Credentials → List ℕ
members c = c.egid ∷ take c.ngroups c.groups

in_groups-shift :
    (n i g : ℕ) (gs : List ℕ) (gid : ℕ) → in_groups (g ∷ gs) (suc i) n gid ≡ in_groups gs i n gid
unfolding in_groups
in_groups-shift zero i g gs gid = refl
in_groups-shift (suc n) i g gs gid =
    let next : suc i + 1 ≡ suc (i + 1) = omega arith in
    rw (next, in_groups-shift n (i + 1) g gs gid) refl

if_or : (a b : Bool) (o : Option Bool) → o ≡ some b → (if a then some true else o) ≡ some (a || b)
if_or true b o e = refl
if_or false b o e = e

in_groups-contains :
    (n : ℕ) (gs : List ℕ) (gid : ℕ)
    → n ≤ length gs
    → in_groups gs 0 n gid ≡ some (contains (take n gs) gid)
unfolding in_groups
in_groups-contains zero gs gid h = refl
in_groups-contains (suc n) [] gid h = absurd (omega arith)
in_groups-contains (suc n) (g ∷ gs) gid h =
    if_or (g == gid) (contains (take n gs) gid) (in_groups (g ∷ gs) 1 n gid)
      (in_groups-shift n 0 g gs gid ∙ in_groups-contains n gs gid (omega arith))

-- `in_group` decides membership in the effective group and the supplementary ones in use.
pub in_group-contains :
    (c : Credentials) (gid : ℕ) → HasRoom c → in_group c gid ≡ some (contains (members c) gid)
unfolding in_group
in_group-contains c gid v =
    let room : c.ngroups ≤ length c.groups = rw (v.places) (v.within) in
    if_or (c.egid == gid) (contains (take c.ngroups c.groups) gid) _
      (in_groups-contains c.ngroups c.groups gid room)

contains-take-set :
    (gs : List ℕ) (n gid g : ℕ)
    → n < length gs
    → contains (take (suc n) (set gs n gid)) g ≡ (gid == g || contains (take n gs) g)
contains-take-set [] n gid g h = absurd (omega arith)
contains-take-set (x ∷ gs) zero gid g h = refl
contains-take-set (x ∷ gs) (suc n) gid g h =
    ground (arith, contains-take-set gs n gid g (omega arith))

-- Adding a group that is there changes no membership.
known :
    (gids : List ℕ) (gid g : ℕ)
    → contains gids gid ≡ true
    → contains gids g ≡ (gid == g || contains gids g)
known gids gid g e = elim (Bool-cases (gid == g)) [
  | inl same ↦
      let there : contains gids g ≡ true = rw (← (==_iff gid g).0 same) e in ground (arith, there)
  | inr other ↦ rw other refl
]

members-added :
    (c : Credentials) (gid g : ℕ)
    → c.ngroups < length c.groups
    → contains
        (members (record c { groups = set c.groups c.ngroups gid; ngroups = c.ngroups + 1 }))
        g
      ≡ (gid == g || contains (members c) g)
members-added c gid g h =
    let next : c.ngroups + 1 ≡ suc c.ngroups = omega arith in
    rw next (ground (arith, contains-take-set c.groups c.ngroups gid g h))

-- Where the groups in use are at most 16, in an array of 16: `add_group` does not panic, and succeeds
-- exactly if fewer than 16 are in use; the caller is then in the group, and in every other group as
-- before; if it fails, membership does not change.
pub add_group_lem :
    (gid : ℕ) (c : Credentials)
    → HasRoom c
    → (added : Bool) × (c' : Credentials) × (add_group gid c ≡ some (added, c'))
      × HasRoom c'
      × (added ≡ ltb c.ngroups ngroups_max)
      × ((g : ℕ) → contains (members c') g ≡ ((added && gid == g) || contains (members c) g))
unfolding add_group
add_group_lem gid c v = elim (Bool-cases (leb ngroups_max c.ngroups)) [
  | inl full ↦ rw full (_, _, refl, v, ground arith, λ g. refl)
  | inr room ↦ elim (Bool-cases (contains (members c) gid)) [
    | inl there ↦
        rw (room, in_group-contains c gid v, there)
          (_, _, refl, v, ground arith, λ g. known (members c) gid g there)
    | inr new_one ↦
        rw (room, in_group-contains c gid v, new_one)
          (
            _,
            _,
            refl,
            record { places = length-set c.groups c.ngroups gid ∙ v.places; within = ground arith },
            ground arith,
            λ g. members-added c gid g (ground (arith, v.places)),
          )
  ]
]
