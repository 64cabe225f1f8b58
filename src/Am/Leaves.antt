-- ===== src/Am/Leaves.antt =====
-- update_scan_entry_key_index of am/utils.c: the step of a scan to the next entry.
pub mod Steps
use adb_minirel.Prelude.{Option, Bool, true, false, not, if◌then◌else◌}
use adb_minirel.Prelude.Int.{ℤ, pos, negsuc, eq_ℤ, leb_ℤ, int_inc}
use adb_minirel.Prelude.Result.{Result, ok, ◌>>=◌}
use adb_minirel.Memory.{Ptr}
use adb_minirel.Unix.{Buf}
use adb_minirel.Pf.{Pf, PfAnswer, pf_page, pf_failed}
use adb_minirel.Pf.Pages.{pf_get_this_page}
use adb_minirel.Am.Nodes.{LeafNode, load_leaf, node_bytes, Addresses, set_leaf_pairs}
use adb_minirel.Am.Tree.{AmCode, ame_ok, ame_pf, ame_eof, unpin_page}

-- scan_table_entry. The key is the bytes that its pointer leads to, unless that is null.
pub record ScanTableEntry : Type 0 where
  pub in_use : Bool
  pub am_fd : ℤ
  pub operation : ℤ
  pub key : Option Buf
  pub key_index : ℤ
  pub leaf : Ptr

abbrev pub scan_left : ScanTableEntry → Pf × Bool → Pf × ScanTableEntry × AmCode
scan_left e (s, done) = (s, e, if done then ame_ok else ame_pf)

-- update_scan_entry_key_index once PF_GetThisPage returned; the page was `prev_pagenum`.
unfoldable pub enter_leaf :
    Addresses
    → ℤ
    → (prev_pagenum : ℤ) → ScanTableEntry
    → Pf × PfAnswer
    → Result (Pf × ScanTableEntry × AmCode)
enter_leaf address fd prev_pagenum e (s, pf_failed code) = ok (s, e, ame_pf)
enter_leaf address fd prev_pagenum e (s, pf_page a) = do
  s ← set_leaf_pairs address s a
  left ← unpin_page s fd prev_pagenum false
  ok (scan_left (record e { leaf = a }) left)

-- update_scan_entry_key_index, with the file of the index.
unfoldable pub update_scan_entry_key_index :
    Addresses → Pf → ℤ → ScanTableEntry → Result (Pf × ScanTableEntry × AmCode)
update_scan_entry_key_index address s fd e = do
  node ← load_leaf (node_bytes s e.leaf)
  if not (leb_ℤ node.valid_entries (int_inc e.key_index))
      then ok (s, record e { key_index = int_inc e.key_index }, ame_ok)
      else if eq_ℤ node.next_leaf (negsuc 0)
      then ok (s, e, ame_eof)
      else do
        got ← pf_get_this_page s fd node.next_leaf
        enter_leaf address fd node.pagenum (record e { key_index = pos 0 }) got
