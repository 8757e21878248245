-- ===== src/Initrd/Stall.antt =====
-- A length of a file that brings `initrd_unpack` back to where it was.
use zeros_i.Base.{
  ℕ, zero, suc, ◌+◌, ◌-◌, ◌%◌, ◌<◌, ◌≡◌, refl, false, none, some, List, ◌++◌, ltb, leb, ◌==◌,
  length, take, drop, arith,
}
use zeros_i.Memory.{word}
use zeros_i.Str.{cstr}
use zeros_i.Vfs.{Vfs, vfs_path_max}
use zeros_i.Vfs.Calls.{Fat}
use zeros_i.Initrd.{
  Entry, no_file, bytes_at, entry_at, unpack_entry, unpack_from, initrd_unpack, pack_word,
}
use zeros_i.Initrd.Reading.{IsName, word_at-pack_word, length-append}

-- The length that wraps `off` around to 0.
abbrev pub wrapping : List ℕ → ℕ
wrapping path = word - 8 - length path

abbrev pub stalling : List ℕ → List ℕ → List ℕ
stalling path rest = pack_word (length path) ++ (pack_word (wrapping path) ++ (path ++ rest))

stalls_at :
    (path rest : List ℕ)
    → IsName path
    → length (stalling path rest) < word
    → (e : Entry) × (entry_at (stalling path rest) 0 ≡ some (e, 0))
unfolding entry_at
stalls_at path rest name small =
    let blob = stalling path rest in
    let len = length-append path rest in
    let path_len =
      word_at-pack_word (length path) (pack_word (wrapping path) ++ (path ++ rest))
        (omega (arith, name)) in
    let file_len = word_at-pack_word (wrapping path) (path ++ rest) (omega arith) in
    let body : (8 + length path) % word ≡ 8 + length path = omega (arith, name) in
    let end : (8 + length path + wrapping path) % word ≡ 0 = omega (arith, name) in
    let is_file : wrapping path == no_file ≡ false = ground (arith, name) in
    let room : ltb (length blob) 8 ≡ false = ground arith in
    let some_name : length path == 0 ≡ false = ground (arith, name) in
    let short : leb vfs_path_max (length path) ≡ false = ground (arith, name) in
    let inside : ltb (length blob) (8 + length path) ≡ false = ground (arith, len) in
    let fits : ltb (length blob) 0 ≡ false = ground arith in
    (
      record {
        path = cstr (take (length path) (drop 8 blob));
        content = some (bytes_at (wrapping path) (drop (8 + length path) blob));
      },
      rw (path_len, file_len, body, end, is_file, room, some_name, short, inside, fits) refl,
    )

stays :
    {F : Type 0} (fat : Fat F) (blob : List ℕ) (e : Entry) (fuel : ℕ) (s : Vfs × F)
    → entry_at blob 0 ≡ some (e, 0)
    → unpack_from fat fuel blob 0 s ≡ none
unfolding unpack_from
stays fat blob e zero s at = refl
stays fat blob e (suc k) s at = rw (unpack_from, at) (stays fat blob e k (unpack_entry fat e s) at)

-- Unpacking an archive whose first entry has a valid name and the length 2 ^ 32 - 8 less the name's as
-- its file's never ends, whatever follows.
pub initrd_unpack-stalling :
    {F : Type 0} (fat : Fat F) (path rest : List ℕ) (fuel : ℕ) (s : Vfs × F)
    → IsName path
    → length (stalling path rest) < word
    → initrd_unpack fat fuel (stalling path rest) s ≡ none
initrd_unpack-stalling fat path rest fuel s name small =
    let (e, at) = stalls_at path rest name small in stays fat (stalling path rest) e fuel s at
