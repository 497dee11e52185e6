-- ===== src/Wfs/Tree/Values.antt =====
-- What a tree needs of the values it holds (the trait `TreeValue`), and the values that are numbers.
use watos.Common.{
  ℕ, ◌^◌, ◌≡◌, refl, ap, Bool, true, Option, none, some, List, ◌++◌, arith, ltb, leb, if◌then◌else◌,
  ltb→lt, length, take, length-take,
}
use watos.Wfs.Tree.Bytes.{to_le, from_le, from_le-to_le}

-- The operations of the trait, and what the trees rely on: a value takes `size` bytes, which is also
-- the size of its type, is read back from them if it fits, and only they are read.
pub record TreeValue {ℓ} (V : Type ℓ) : Type ℓ where
  pub size : ℕ
  pub serialize : V → List ℕ
  pub deserialize : List ℕ → Option V
  pub fits : V → Bool
  pub length-serialize : (v : V) → length (serialize v) ≡ size
  pub deserialize-serialize :
      (v : V) (rest : List ℕ) → fits v ≡ true → deserialize (serialize v ++ rest) ≡ some v
  pub deserialize_local :
      (bs cs : List ℕ) → take size bs ≡ take size cs → deserialize bs ≡ deserialize cs

-- `impl TreeValue for u64`
unfoldable pub u64_serialize : ℕ → List ℕ
u64_serialize = to_le 8

unfoldable pub u64_deserialize : List ℕ → Option ℕ
u64_deserialize buf = if leb 8 (length buf) then some (from_le (take 8 buf)) else none

pub u64_deserialize-u64_serialize :
    (v : ℕ) (rest : List ℕ)
    → ltb v (256 ^ 8) ≡ true
    → u64_deserialize (u64_serialize v ++ rest) ≡ some v
unfolding u64_deserialize u64_serialize
u64_deserialize-u64_serialize v rest h =
    let long : leb 8 (length (to_le 8 v ++ rest)) ≡ true = ground arith in
    rw long (ap some (from_le-to_le 8 v (ltb→lt v (256 ^ 8) h)))

-- How many bytes there are shows in the first eight.
pub u64_deserialize_local :
    (bs cs : List ℕ) → take 8 bs ≡ take 8 cs → u64_deserialize bs ≡ u64_deserialize cs
unfolding u64_deserialize
u64_deserialize_local bs cs h =
    let long : leb 8 (length bs) ≡ leb 8 (length cs) =
      ground (arith, length-take 8 bs, length-take 8 cs, ap length h) in
    rw (h, long) refl

unfoldable pub u64_value : TreeValue ℕ
unfolding u64_serialize u64_deserialize
u64_value = record {
  size = 8;
  serialize = u64_serialize;
  deserialize = u64_deserialize;
  fits = λ v. ltb v (256 ^ 8);
  length-serialize = λ v. refl;
  deserialize-serialize = u64_deserialize-u64_serialize;
  deserialize_local = u64_deserialize_local;
}
