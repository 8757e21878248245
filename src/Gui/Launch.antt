-- ===== src/Gui/Launch.antt =====
-- kernel/gui/display.c: the programs that clients ask the server to start.
pub mod Order
use zeros_i.Base.{
  ℕ, zero, suc, ◌+◌, Bool, true, false, ◌&&◌, ◌||◌, not, Option, none, some, List, [], ◌∷◌, ◌++◌,
  ltb, ◌==◌, if◌then◌else◌, get_or, set, take,
}
use zeros_i.Str.{kstrlen, kstrncpy, cstr}
use zeros_i.Gui.{Display, LaunchReq, cleared_launch, gui_launch_max, caller, is_server}

-- `kstrncpy(argv, argv, GUI_LAUNCH_MAX)`, or `argv[0] = 0` where there are no arguments.
abbrev pub argv_cells : List ℕ → List ℕ → List ℕ
argv_cells cells [] = set cells 0 0
argv_cells cells (c ∷ argv) = kstrncpy cells (c ∷ argv) gui_launch_max

abbrev pub filled : List ℕ → List ℕ → LaunchReq → LaunchReq
filled path argv r = record {
  launch_used = true;
  launch_path = kstrncpy r.launch_path path gui_launch_max;
  launch_argv = argv_cells r.launch_argv argv;
}

-- The loop of `display_request_launch`.
unfoldable pub request_from : List ℕ → List ℕ → List LaunchReq → Bool × List LaunchReq
request_from path argv [] = (false, [])
request_from path argv (r ∷ q) =
    let (done, rest) = request_from path argv q in
    if r.launch_used then (done, r ∷ rest) else (true, filled path argv r ∷ q)

-- A null string is [] here.
unfoldable pub display_request_launch : List ℕ → List ℕ → Display → Bool × Display
display_request_launch path argv d =
    let (done, q) = request_from path argv d.launch_q in
    if d.server_pid == 0
    then (false, d)
    else elim path [ [] ↦ (false, d) | c ∷ rest ↦ (done, record d { launch_q = q }) ]

-- The bytes that go to the buffer: both strings with their NUL.
abbrev pub launch_bytes : LaunchReq → List ℕ
launch_bytes r =
    take (kstrlen (cstr r.launch_path) + 1) r.launch_path
    ++ take (kstrlen (cstr r.launch_argv) + 1) r.launch_argv

-- The loop of `display_take_launch`; `none` is the result 0.
unfoldable pub take_from : ℕ → List LaunchReq → Option (List ℕ) × List LaunchReq
take_from n [] = (none, [])
take_from n (r ∷ q) =
    let (bytes, rest) = take_from n q in
    if not r.launch_used
    then (bytes, r ∷ rest)
    else if ltb n (kstrlen (cstr r.launch_path) + kstrlen (cstr r.launch_argv) + 3)
    then (none, r ∷ q)
    else (some (launch_bytes r), record r { launch_used = false } ∷ q)

-- The buffer is not null; an `n` below 0 is as 0.
unfoldable pub display_take_launch : ℕ → Display → Option (List ℕ) × Display
display_take_launch n d =
    let (bytes, q) = take_from n d.launch_q in
    if not (is_server d) || ltb n 4 then (none, d) else (bytes, record d { launch_q = q })
