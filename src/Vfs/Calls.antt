-- ===== src/Vfs/Calls.antt =====
-- kernel/fs/vfs.c: the calls of vfs.h. A path of the FAT driver, or a descriptor from 100 on, goes to
-- kernel/fs/fat.c, of which only the interface is modelled.
use zeros_i.Base.{
  ℕ, ◌^◌, Bool, true, false, ◌&&◌, not, none, some, List, [], ◌∷◌, ltb, leb, if◌then◌else◌,
}
use zeros_i.Base.Int.{ℤ, pos, negsuc}
use zeros_i.Mm.{Mm}
use zeros_i.Vfs.{Vfs, err_noent, err_isdir, node_at, vfs_lookup}
use zeros_i.Vfs.Tree.{mkdir_here, unlink_here, empty_tree}
use zeros_i.Vfs.Files.{
  open_here, close_here, read_here, write_here, read_file_here, size_here, listdir_here, vfs_o_read,
}

-- kernel/fs/fat.h, over the driver's own state.
pub record Fat (F : Type 0) : Type 0 where
  pub fat_is_path : F → List ℕ → Bool
  pub fat_open : List ℕ → ℕ → F → ℤ × F
  pub fat_close : ℕ → F → ℤ × F
  pub fat_read : ℕ → ℕ → F → ℤ × F × List ℕ
  pub fat_write : ℕ → List ℕ → F → ℤ × F
  pub fat_listdir : List ℕ → ℕ → F → ℤ × List ℕ
  pub fat_mkdir : List ℕ → F → ℤ × F
  pub fat_exists : F → List ℕ → Bool
  pub fat_isdir : F → List ℕ → Bool
  pub fat_unlink : List ℕ → F → ℤ × F
  pub fat_file_size : F → List ℕ → ℕ

-- `fd >= 100` of a signed descriptor.
abbrev pub is_fat_fd : ℕ → Bool
is_fat_fd fd = leb 100 fd && ltb fd (2 ^ 31)

abbrev pub here : {F : Type 0} → F → ℤ × Vfs → ℤ × Vfs × F
here d (r, v) = (r, v, d)

abbrev pub there : {F : Type 0} → Vfs → ℤ × F → ℤ × Vfs × F
there v (r, d) = (r, v, d)

module _ {F : Type 0} (fat : Fat F) where
  unfoldable pub vfs_mkdir : List ℕ → Vfs → F → ℤ × Vfs × F
  vfs_mkdir path v d =
      if fat.fat_is_path d path then there v (fat.fat_mkdir path d) else here d (mkdir_here path v)

  -- "/sys" and "/disk" are made; their results are not looked at.
  unfoldable pub vfs_init : Mm → F → Vfs × F
  vfs_init mm d =
      let (r, v, d') = vfs_mkdir (b'/' ∷ b's' ∷ b'y' ∷ b's' ∷ []) (empty_tree mm) d in
      let (r', v', d'') = vfs_mkdir (b'/' ∷ b'd' ∷ b'i' ∷ b's' ∷ b'k' ∷ []) v d' in (v', d'')

  pub vfs_open : List ℕ → ℕ → Vfs → F → ℤ × Vfs × F
  vfs_open path flags v d =
      if fat.fat_is_path d path
      then there v (fat.fat_open path flags d)
      else here d (open_here path flags v)

  pub vfs_close : ℕ → Vfs → F → ℤ × Vfs × F
  vfs_close fd v d = if is_fat_fd fd then there v (fat.fat_close fd d) else here d (close_here fd v)

  pub vfs_read : ℕ → ℕ → Vfs → F → ℤ × Vfs × F × List ℕ
  vfs_read fd n v d =
      let (r, d', got) = fat.fat_read fd n d in
      let (r', v', got') = read_here fd n v in
      if is_fat_fd fd then (r, v, d', got) else (r', v', d, got')

  pub vfs_write : ℕ → List ℕ → Vfs → F → ℤ × Vfs × F
  vfs_write fd buf v d =
      if is_fat_fd fd then there v (fat.fat_write fd buf d) else here d (write_here fd buf v)

  pub vfs_unlink : List ℕ → Vfs → F → ℤ × Vfs × F
  vfs_unlink path v d =
      if fat.fat_is_path d path
      then there v (fat.fat_unlink path d)
      else here d (unlink_here path v)

  -- The descriptor of the FAT driver that `vfs_read_file` opens is closed again.
  abbrev pub fat_read_file : ℕ → ℤ × F → ℤ × F × List ℕ
  fat_read_file buflen (negsuc e, d) = (negsuc e, d, [])
  fat_read_file buflen (pos fd, d) =
      let (r, d', got) = fat.fat_read fd buflen d in (r, (fat.fat_close fd d').1, got)

  pub vfs_read_file : List ℕ → ℕ → Vfs → F → ℤ × F × List ℕ
  vfs_read_file path buflen v d =
      let (r, got) = read_file_here path buflen v in
      if fat.fat_is_path d path
      then fat_read_file buflen (fat.fat_open path vfs_o_read d)
      else (r, d, got)

  unfoldable pub vfs_exists : List ℕ → Vfs → F → Bool
  vfs_exists path v d =
      if fat.fat_is_path d path
      then fat.fat_exists d path
      else elim (vfs_lookup v path) [ none ↦ false | some i ↦ true ]

  pub vfs_isdir : List ℕ → Vfs → F → Bool
  vfs_isdir path v d =
      if fat.fat_is_path d path
      then fat.fat_isdir d path
      else elim (vfs_lookup v path) [ none ↦ false | some i ↦ (node_at v i).is_dir ]

  pub vfs_size : List ℕ → Vfs → F → ℤ
  vfs_size path v d =
      if not (fat.fat_is_path d path)
      then size_here path v
      else if fat.fat_isdir d path
      then err_isdir
      else if not (fat.fat_exists d path)
      then err_noent
      else pos (fat.fat_file_size d path)

  pub vfs_listdir : List ℕ → ℕ → Vfs → F → ℤ × List ℕ
  vfs_listdir path buflen v d =
      if fat.fat_is_path d path then fat.fat_listdir path buflen d else listdir_here path buflen v
