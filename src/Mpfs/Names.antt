-- ===== src/Mpfs/Names.antt =====
-- Which names exist, before and after `mpfs_unlink`.
use zeros_i.Base.{
  ℕ, zero, suc, [], ◌∷◌, ◌&&◌, ◌==◌, get_or, ◌-◌, ◌<◌, ◌≡◌, ◌≢◌, refl, sym, ◌∙◌, true, false,
  Option, none, some, List, get_or-set, set, length, length-set, arith, Bool-cases, Option-cases,
  inl, inr, ◌⊎◌,
}
use zeros_i.Str.{IsCString}
use zeros_i.Mpfs.{
  Mpfs, MpfsFd, unused, Result, ok, err, perm, noent, blank, file_at, norm_name, name_ok, find_from,
  find_inode, is_open, unlink_at, mpfs_unlink, mpfs_exists,
}
use zeros_i.Mpfs.Table.{Holds, str_is→eq, find_from_hit, find_from_miss}
use zeros_i.Mpfs.Valid.{IsValid}
use zeros_i.Mpfs.Keeps.{find_inode_hit}
use zeros_i.Mpfs.Open.{name_ok_string}

-- Some file in use has the path's name.
pub record Exists (s : Mpfs) (p : List ℕ) : Type 0 where
  pub slot : ℕ
  pub holds : Holds s.files (norm_name p) slot
  pub proper : name_ok (some p) ≡ true

pub exists→Exists : (s : Mpfs) (p : List ℕ) → mpfs_exists s (some p) ≡ true → Exists s p
unfolding mpfs_exists find_inode
exists→Exists s p e = elim (Bool-cases (name_ok (some p))) [
  | inr bad ↦ absurd (ground arith)
  | inl good ↦ elim (Option-cases (find_from s.files (norm_name p) 0)) [
    | inl miss ↦ absurd (ground arith)
    | inr (ino, hit) ↦
        let (t, at, h) = find_from_hit s.files (norm_name p) 0 ino hit in
        record { slot = t; holds = h; proper = good }
  ]
]

pub Exists→exists : (s : Mpfs) (p : List ℕ) → Exists s p → mpfs_exists s (some p) ≡ true
unfolding mpfs_exists find_inode
Exists→exists s p x = elim (Option-cases (find_from s.files (norm_name p) 0)) [
  | inl miss ↦ absurd (find_from_miss s.files (norm_name p) 0 miss x.slot x.holds)
  | inr (ino, hit) ↦ ground (arith, x.proper)
]

pub not-Exists : (s : Mpfs) (p : List ℕ) → ¬ Exists s p → mpfs_exists s (some p) ≡ false
not-Exists s p h = elim (Bool-cases (mpfs_exists s (some p))) [
  | inl there ↦ absurd (h (exists→Exists s p there))
  | inr gone ↦ gone
]

exists_of_miss :
    (s : Mpfs) (p : List ℕ) → find_inode s (some p) ≡ none → mpfs_exists s (some p) ≡ false
unfolding mpfs_exists
exists_of_miss s p e = ground arith

exists_of_hit :
    (s : Mpfs) (p : List ℕ) (i : ℕ) → find_inode s (some p) ≡ some i → mpfs_exists s (some p) ≡ true
unfolding mpfs_exists
exists_of_hit s p i e = ground arith

Exists-iff :
    (s t : Mpfs) (p q : List ℕ)
    → (Exists s p → Exists t q)
    → (Exists t q → Exists s p)
    → mpfs_exists s (some p) ≡ mpfs_exists t (some q)
Exists-iff s t p q to from = elim (Bool-cases (mpfs_exists s (some p))) [
  | inl there ↦ there ∙ sym (Exists→exists t q (to (exists→Exists s p there)))
  | inr gone ↦ gone ∙ sym (not-Exists t q (λ x. absurd (cc (gone, Exists→exists s p (from x)))))
]

-- A descriptor that is in use names a file of the path's name.
pub record Opened (s : Mpfs) (p : List ℕ) : Type 0 where
  pub fd : ℕ
  pub in_use : (get_or s.fds fd unused).fd_used ≡ true
  pub named : Holds s.files (norm_name p) (get_or s.fds fd unused).inode

is_open-fd :
    (fds : List MpfsFd) (i : ℕ)
    → is_open fds i ≡ true
    → (fd : ℕ) × ((get_or fds fd unused).fd_used ≡ true) × ((get_or fds fd unused).inode ≡ i)
unfolding is_open
is_open-fd [] i e = absurd (ground arith)
is_open-fd (f ∷ fds) i e = elim (Bool-cases (f.fd_used && (f.inode == i))) [
  | inl this ↦ (0, ground arith, ground arith)
  | inr other ↦ let (fd, u, at) = is_open-fd fds i (ground arith) in (suc fd, u, at)
]

fd-is_open :
    (fds : List MpfsFd) (i fd : ℕ)
    → (get_or fds fd unused).fd_used ≡ true
    → (get_or fds fd unused).inode ≡ i
    → is_open fds i ≡ true
unfolding is_open
fd-is_open [] i fd u e = absurd (ground arith)
fd-is_open (f ∷ fds) i zero u e = ground arith
fd-is_open (f ∷ fds) i (suc fd) u e = ground (arith, fd-is_open fds i fd u e)

-- The outcome of unlinking `p`, in terms of which names exist.
abbrev pub UnlinkSpec : Mpfs → List ℕ → Result × Mpfs → Type 0
UnlinkSpec s p (ok n, s') =
    (mpfs_exists s (some p) ≡ true)
    × ¬ Opened s p
    × (mpfs_exists s' (some p) ≡ false)
    × ((q : List ℕ)
        → IsCString q
        → norm_name q ≢ norm_name p
        → mpfs_exists s' (some q) ≡ mpfs_exists s (some q))
UnlinkSpec s p (err e, s') =
    (s' ≡ s)
    × ((e ≡ noent) × (mpfs_exists s (some p) ≡ false)
        ⊎ (e ≡ perm) × (mpfs_exists s (some p) ≡ true) × Opened s p)

module _ (s : Mpfs) (v : IsValid s) (p : List ℕ) (c : IsCString p) where
  removed : ℕ → Mpfs
  removed i = record s { files = set s.files i blank; nfiles = s.nfiles - 1 }

  -- The slots in use after slot `i` is cleared.
  Holds-removed :
      (i t : ℕ) (name : List ℕ)
      → i < length s.files
      → Holds (set s.files i blank) name t
      → Holds s.files name t × (i ≢ t)
  Holds-removed i t name lt h = (
    record {
      within = omega (arith, h.within, length-set s.files i blank);
      used = ground (arith, h.used, get_or-set s.files i t blank blank);
      same = ground (arith, h.used, h.same, get_or-set s.files i t blank blank);
    },
    ground (arith, h.used, get_or-set s.files i t blank blank),
  )

  removed-Holds :
      (i t : ℕ) (name : List ℕ)
      → i < length s.files
      → Holds s.files name t
      → i ≢ t
      → Holds (set s.files i blank) name t
  removed-Holds i t name lt h ne = record {
    within = omega (arith, h.within, length-set s.files i blank);
    used = ground (arith, h.used, get_or-set s.files i t blank blank);
    same = ground (arith, h.same, get_or-set s.files i t blank blank);
  }

  name_of :
      (q : List ℕ) (t : ℕ)
      → IsCString q
      → name_ok (some q) ≡ true
      → Holds s.files (norm_name q) t
      → (file_at s t).name ≡ norm_name q
  name_of q t cq good h =
      str_is→eq (file_at s t).name (norm_name q) (v.file_ok t).string (name_ok_string q cq good).0
        h.same

  unlink_at-Spec : (o : Option ℕ) → find_inode s (some p) ≡ o → UnlinkSpec s p (unlink_at s o)
  unfolding unlink_at removed
  unlink_at-Spec none e = (refl, inl (refl, exists_of_miss s p e))
  unlink_at-Spec (some i) e =
      let (h, good) = find_inode_hit v p i e in
      let there : mpfs_exists s (some p) ≡ true = exists_of_hit s p i e in
      let at = name_of p i c good h in
      elim (Bool-cases (is_open s.fds i)) [
        | inl open_ ↦
            let (fd, u, names) = is_open-fd s.fds i open_ in
            rw open_ (refl, inr (refl, there, record { fd = fd; in_use = u; named = rw names h }))
        | inr closed ↦ rw closed (
          there,
          λ o.
              let same =
                v.unique i (get_or s.fds o.fd unused).inode h.used o.named.used
                  (at ∙ sym (name_of p (get_or s.fds o.fd unused).inode c good o.named)) in
              absurd (cc (closed, fd-is_open s.fds i o.fd o.in_use (sym same))),
          not-Exists (removed i) p (λ x.
              let (h', ne) = Holds-removed i x.slot (norm_name p) h.within x.holds in
              ne (v.unique i x.slot h.used h'.used (at ∙ sym (name_of p x.slot c x.proper h')))),
          λ q cq ne.
              Exists-iff (removed i) s q q
                (λ x. record {
                  slot = x.slot;
                  holds = (Holds-removed i x.slot (norm_name q) h.within x.holds).0;
                  proper = x.proper;
                })
                (λ x. record {
                  slot = x.slot;
                  holds =
                      removed-Holds i x.slot (norm_name q) h.within x.holds (λ same.
                        ne (sym (name_of q x.slot cq x.proper x.holds) ∙ (rw (← same) at)));
                  proper = x.proper;
                }),
        )
      ]

  -- In a well-formed file system, unlinking a C string that succeeds removes its name, and every C
  -- string with another name exists exactly if it did before. If it fails, nothing changes, and
  -- either there is no such file (`noent`) or the file exists and a descriptor in use names it
  -- (`perm`); a file that goes is named by none.
  pub mpfs_unlink_lem : UnlinkSpec s p (mpfs_unlink (some p) s)
  unfolding mpfs_unlink
  mpfs_unlink_lem = unlink_at-Spec (find_inode s (some p)) refl
