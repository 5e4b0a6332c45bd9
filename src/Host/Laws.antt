-- ===== src/Host/Laws.antt =====
-- What the calls of the host leave alone, and what they achieve.
use proxs.Prelude.{
  inl, inr, Bool-cases, ◌||◌, ◌≡◌, refl, ◌≢◌, ◌⊎◌, inl, inr, false, ◌||◌, Option, none, some, arith,
  Bool-cases, ◌==◌, eq_refl, nat_eq, list_eq, Text,
}
use proxs.FilePath.{FilePath}
use proxs.Host.{
  Op, Node, Host, stat, read_file, created, write_file, Removal, remove_as, clear_immutable, mkdir,
  write, open_file, file, dir, failed, info_of, FileInfo,
}

-- A file can be written: its directory, the file itself and its contents.
pub record IsWritable (h : Host) (p : FilePath) : Type 0 where
  pub mkdir_ok : h.denied mkdir p ≡ false
  pub write_ok : h.denied write p ≡ false
  pub open_ok : h.denied open_file p ≡ false
  pub create_ok : created h p ≢ none

created-frame :
    (h h' : Host) (p : FilePath)
    → h'.fs p ≡ h.fs p
    → h'.denied ≡ h.denied
    → created h' p ≡ none
    → created h p ≡ none
unfolding created
created-frame h h' p e d n = ground arith

pub IsWritable-frame :
    (h h' : Host) (p : FilePath)
    → h'.fs p ≡ h.fs p
    → h'.denied ≡ h.denied
    → IsWritable h p
    → IsWritable h' p
IsWritable-frame h h' p e d w = record {
  mkdir_ok = rw d w.mkdir_ok;
  write_ok = rw d w.write_ok;
  open_ok = rw d w.open_ok;
  create_ok = λ n. w.create_ok (created-frame h h' p e d n);
}

module _ (p q : FilePath) (ne : (p == q) ≡ false) (h : Host) where
  pub fs-write_file : (c : Text) → (write_file p c h).1.fs q ≡ h.fs q
  unfolding write_file
  fs-write_file c = ground arith

  pub fs-remove_as : (op : Op) → (remove_as op p h).1.fs q ≡ h.fs q
  unfolding remove_as
  fs-remove_as op = ground arith

  pub fs-clear_immutable : (clear_immutable p h).fs q ≡ h.fs q
  unfolding clear_immutable
  fs-clear_immutable = ground arith

module _ (p : FilePath) (h : Host) where
  pub denied-write_file : (c : Text) → (write_file p c h).1.denied ≡ h.denied
  unfolding write_file
  denied-write_file c = ground arith

  pub denied-remove_as : (op : Op) → (remove_as op p h).1.denied ≡ h.denied
  unfolding remove_as
  denied-remove_as op = ground arith

  pub denied-clear_immutable : (clear_immutable p h).denied ≡ h.denied
  unfolding clear_immutable
  denied-clear_immutable = ground arith

  pub now-write_file : (c : Text) → (write_file p c h).1.now ≡ h.now
  unfolding write_file
  now-write_file c = ground arith

  pub now-remove_as : (op : Op) → (remove_as op p h).1.now ≡ h.now
  unfolding remove_as
  now-remove_as op = ground arith

  pub now-clear_immutable : (clear_immutable p h).now ≡ h.now
  unfolding clear_immutable
  now-clear_immutable = ground arith

  -- What was written is what is read.
  pub read_file-write_file : (c : Text) → IsWritable h p → read_file (write_file p c h).1 p ≡ some c
  unfolding write_file read_file
  read_file-write_file c w = ground (arith, eq_refl p, w.create_ok)

  abbrev pub RemoveOutcome : Removal × Host → Type 0
  RemoveOutcome r = ((r.0 ≢ failed) × (r.1.fs p ≡ none)) ⊎ ((r.0 ≡ failed) × (r.1 ≡ h))

  remove_as-at : (op : Op) (n : Option Node) → h.fs p ≡ n → RemoveOutcome (remove_as op p h)
  unfolding remove_as
  remove_as-at op none e = rw (e, remove_as) (inl ((λ x. cc), e))
  remove_as-at op (some dir) e = rw (e, remove_as) (inr (refl, refl))
  remove_as-at op (some (file f)) e = elim (Bool-cases (f.immutable || h.denied op p)) [
    | inl b ↦ rw (e, remove_as, b) (inr (refl, refl))
    | inr b ↦ rw (e, remove_as, b) (inl ((λ x. cc), rw eq_refl))
  ]

  -- A removal that succeeded, or found nothing, leaves nothing at the path; one that failed leaves
  -- the host as it was.
  pub remove_as-outcome : (op : Op) → RemoveOutcome (remove_as op p h)
  remove_as-outcome op = remove_as-at op (h.fs p) refl

pub stat-fs : (h h' : Host) (p : FilePath) → h'.fs p ≡ h.fs p → stat h' p ≡ stat h p
unfolding stat
stat-fs h h' p e = rw (e, stat)

pub read_file-fs :
    (h h' : Host) (p : FilePath)
    → h'.fs p ≡ h.fs p
    → h'.denied ≡ h.denied
    → read_file h' p ≡ read_file h p
unfolding read_file
read_file-fs h h' p e d = ground arith

pub stat-eq : (h : Host) (p : FilePath) (n : Node) → h.fs p ≡ some n → stat h p ≡ some (info_of n)
unfolding stat
stat-eq h p n e = ground arith

pub stat_unique :
    (h : Host) (p : FilePath) {i j : FileInfo} → stat h p ≡ some i → stat h p ≡ some j → i ≡ j
stat_unique h p e e' = cc
