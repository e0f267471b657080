-- ===== src/Hal/Fat/Directory.antt =====
-- hal/src/fat.rs: what a directory says about one of the things in it.
use Prim.Native.Nat.{bit_and}
use aion_so.Base.{ℕ, Bool, not, List, ◌==◌, take}
use aion_so.Base.Text.{text_or_empty, same_text}

pub record DirectoryEntry : Type 0 where
  pub name : List ℕ
  pub name_len : ℕ
  pub attributes : ℕ
  pub first_cluster : ℕ
  pub size : ℕ

pub is_directory : DirectoryEntry → Bool
is_directory e = not (bit_and e.attributes 0x10 == 0)

unfoldable pub name_of : DirectoryEntry → List ℕ
name_of e = text_or_empty (take e.name_len e.name)

unfoldable pub is_named : DirectoryEntry → List ℕ → Bool
unfolding name_of
is_named e other = same_text (name_of e) other
