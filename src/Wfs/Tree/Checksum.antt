-- ===== src/Wfs/Tree/Checksum.antt =====
-- The check sum of a node (`calculate_crc`, `update_crc`, `verify_crc`, `is_valid` of node.rs).
use watos.Common.{
  ℕ, ◌≡◌, refl, Bool, true, false, ◌&&◌, Option, none, some, List, ◌++◌, ◌==◌, ==_iff,
}
use watos.Wfs.Tree.{TreeNode, node_type}
use watos.Wfs.Tree.Bytes.{to_le, crc32}

-- the bytes of the node as it stands on the disk, without its check sum
unfoldable pub checked_bytes : TreeNode → List ℕ
checked_bytes n =
    to_le 4 n.magic
    ++ (to_le 2 n.level
        ++ (to_le 2 n.item_count
            ++ (to_le 8 n.generation
                ++ (to_le 8 n.parent_block ++ (to_le 4 n.pad ++ n.data_area)))))

unfoldable pub calculate_crc : TreeNode → ℕ
unfolding checked_bytes crc32
calculate_crc n = crc32 (checked_bytes n)

unfoldable pub update_crc : TreeNode → TreeNode
unfolding calculate_crc
update_crc n = record n { crc32 = calculate_crc n }

unfoldable pub verify_crc : TreeNode → Bool
unfolding calculate_crc
verify_crc n = n.crc32 == calculate_crc n

abbrev pub is_some {ℓ} : {A : Type ℓ} → Option A → Bool
is_some none = false
is_some (some a) = true

unfoldable pub is_valid : TreeNode → Bool
unfolding verify_crc node_type
is_valid n = is_some (node_type n) && verify_crc n

-- The check sum is not over itself.
checked_bytes-update_crc : (n : TreeNode) → checked_bytes (update_crc n) ≡ checked_bytes n
unfolding checked_bytes update_crc
checked_bytes-update_crc n = refl

-- A node whose magic number is that of a type is valid once its check sum is updated.
pub is_valid-update_crc :
    (n : TreeNode) → is_some (node_type n) ≡ true → is_valid (update_crc n) ≡ true
unfolding is_valid verify_crc calculate_crc
is_valid-update_crc n h =
    let c = crc32 (checked_bytes n) in
    let same : (c == c) ≡ true = (==_iff c c).1 refl in
    rw (checked_bytes-update_crc n) (unfold update_crc node_type in rw (h, same) refl)
