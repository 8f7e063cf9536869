-- ===== src/App/Ffi.antt =====
-- crates/quicview/src/ffi.rs: the handles that a C program holds. The allocator is a parameter, on its
-- own state; a pointer is a number, and 0 is null.
use quicview.Prelude.{ℕ, String, ◌==◌, if◌then◌else◌}

-- `Box::into_raw(Box::new(..))` and `drop(Box::from_raw(..))`.
pub record Allocator (H : Type 0) : Type 0 where
  pub into_raw : H → H × ℕ
  pub drop_raw : ℕ → H → H

abbrev pub quicview_version : String
quicview_version = "0.1.0"

abbrev pub version_str : String
version_str = quicview_version

module _ {H : Type 0} (heap : Allocator H) where
  unfoldable pub quicview_create : H → H × ℕ
  quicview_create h = heap.into_raw h

  unfoldable pub quicview_destroy : ℕ → H → H
  quicview_destroy handle h = if handle == 0 then h else heap.drop_raw handle h
