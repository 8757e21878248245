-- ===== src/Mpfs/Table.antt =====
-- The searches of the two tables: what a hit is, and what a miss says of every entry.
use zeros_i.Base.{
  ℕ, zero, suc, ◌+◌, ◌<◌, ◌≡◌, ◌≢◌, true, false, ◌&&◌, none, some, List, [], ◌∷◌, get_or, length,
  arith, Bool-cases, inl, inr,
}
use zeros_i.Str.{IsCString}
use zeros_i.Str.Compare.{kstrcmp-zero_iff}
use zeros_i.Mpfs.{
  MpfsInode, MpfsFd, blank, unused, str_is, find_from, alloc_inode, alloc_fd, is_open,
}

pub str_is→eq : (a b : List ℕ) → IsCString a → IsCString b → str_is a b ≡ true → a ≡ b
unfolding str_is
str_is→eq a b ha hb e = (kstrcmp-zero_iff a b ha hb).0 (ground arith)

pub eq→str_is : (a b : List ℕ) → IsCString a → IsCString b → a ≡ b → str_is a b ≡ true
unfolding str_is
eq→str_is a b ha hb e = ground (arith, (kstrcmp-zero_iff a b ha hb).1 e)

pub record FreeFd (fds : List MpfsFd) (t : ℕ) : Type 0 where
  pub within : t < length fds
  pub free : (get_or fds t unused).fd_used ≡ false

pub alloc_fd_hit :
    (fds : List MpfsFd) (i k : ℕ) → alloc_fd fds i ≡ some k → (t : ℕ) × (k ≡ i + t) × FreeFd fds t
unfolding alloc_fd
alloc_fd_hit [] i k e = absurd (ground arith)
alloc_fd_hit (f ∷ fds) i k e = elim (Bool-cases f.fd_used) [
  | inl busy ↦
      let (t, at, free) = alloc_fd_hit fds (i + 1) k (ground arith) in
      (suc t, omega arith, record { within = omega (arith, free.within); free = free.free })
  | inr idle ↦ (0, ground arith, record { within = omega arith; free = idle })
]

pub record FreeInode (files : List MpfsInode) (t : ℕ) : Type 0 where
  pub within : t < length files
  pub free : (get_or files t blank).used ≡ false

pub alloc_inode_hit :
    (files : List MpfsInode) (i k : ℕ)
    → alloc_inode files i ≡ some k
    → (t : ℕ) × (k ≡ i + t) × FreeInode files t
unfolding alloc_inode
alloc_inode_hit [] i k e = absurd (ground arith)
alloc_inode_hit (f ∷ files) i k e = elim (Bool-cases f.used) [
  | inl busy ↦
      let (t, at, free) = alloc_inode_hit files (i + 1) k (ground arith) in
      (suc t, omega arith, record { within = omega (arith, free.within); free = free.free })
  | inr idle ↦ (0, ground arith, record { within = omega arith; free = idle })
]

-- The entry at `t` is in use under the name.
pub record Holds (files : List MpfsInode) (name : List ℕ) (t : ℕ) : Type 0 where
  pub within : t < length files
  pub used : (get_or files t blank).used ≡ true
  pub same : str_is (get_or files t blank).name name ≡ true

pub find_from_hit :
    (files : List MpfsInode) (name : List ℕ) (i k : ℕ)
    → find_from files name i ≡ some k
    → (t : ℕ) × (k ≡ i + t) × Holds files name t
unfolding find_from
find_from_hit [] name i k e = absurd (ground arith)
find_from_hit (f ∷ files) name i k e = elim (Bool-cases (f.used && str_is f.name name)) [
  | inr other ↦
      let (t, at, h) = find_from_hit files name (i + 1) k (ground arith) in
      (
        suc t,
        omega arith,
        record { within = omega (arith, h.within); used = h.used; same = h.same },
      )
  | inl this ↦
      (0, ground arith, record { within = omega arith; used = ground arith; same = ground arith })
]

pub find_from_miss :
    (files : List MpfsInode) (name : List ℕ) (i : ℕ)
    → find_from files name i ≡ none
    → (t : ℕ) → ¬ Holds files name t
unfolding find_from
find_from_miss [] name i e t h = omega (arith, h.within)
find_from_miss (f ∷ files) name i e zero h = ground (arith, h.used, h.same)
find_from_miss (f ∷ files) name i e (suc t) h =
    find_from_miss files name (i + 1) (ground arith) t
      (record { within = omega (arith, h.within); used = h.used; same = h.same })

-- No open descriptor names an inode that `is_open` denies.
pub is_open_miss :
    (fds : List MpfsFd) (ino t : ℕ)
    → is_open fds ino ≡ false
    → (get_or fds t unused).fd_used ≡ true
    → (get_or fds t unused).inode ≢ ino
unfolding is_open
is_open_miss [] ino t e u = absurd (ground arith)
is_open_miss (f ∷ fds) ino zero e u = ground arith
is_open_miss (f ∷ fds) ino (suc t) e u = is_open_miss fds ino t (ground arith) u
