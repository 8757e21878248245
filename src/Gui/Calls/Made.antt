-- ===== src/Gui/Calls/Made.antt =====
-- The effect on the windows of the calls of kernel/gui/display.c that allocate or yield, and of all.
use zeros_i.Base.{
  ℕ, ◌<◌, ◌≡◌, refl, ◌∙◌, true, false, ◌&&◌, ◌||◌, Bool, not, Option, none, some, List, [], ◌∷◌,
  ◌==◌, set, length, arith, Bool-cases, Option-cases, inl, inr,
}
use zeros_i.Mm.{Mm}
use zeros_i.Proc.Slices.{Frame, proc_yield_to_parent}
use zeros_i.Proc.Slices.Windows.{yield-KeepsWins}
use zeros_i.Gui.Window.{GuiEvt, GuiWin, post_evt}
use zeros_i.Gui.Window.Ring.{IsRing}
use zeros_i.Gui.Window.Ring.Queue.{post_evt-Agrees, window-post_evt}
use zeros_i.Gui.{
  Display, wins_of, mm_of, caller, win_at, put_win, with_wins, win_by_id, is_owner, is_server,
  display_server_set,
}
use zeros_i.Gui.Windows.{
  bad_size, display_damage, present, display_resize, resize_with, resize_at, display_create,
  create_at, fill_win, zeroed_pages, pages_for, free_win_from,
}
use zeros_i.Gui.Events.{display_post_event}
use zeros_i.Gui.Launch.{display_request_launch, display_take_launch}
use zeros_i.Gui.Calls.{
  Call, server_set, create, damaged, destroy, set_flags, resize, set_title, ack_map, ack_damage,
  request_launch, take_launch, post_event, poll_event, after, call,
}
use zeros_i.Gui.Calls.Find.{found, free_win_from_hit, display_post_event_after}
use zeros_i.Gui.Calls.Effect.{Effect, stays, changes, closes, opens, blanks}
use zeros_i.Gui.Calls.Each.{
  display_destroy-Effect, display_set_flags-Effect, display_set_title-Effect,
  display_ack_map-Effect, display_ack_damage-Effect, display_post_event-Effect,
  display_poll_event-Effect, edit-Effect, Plain-IsEdit,
}

-- A later step that keeps the windows.
then-Effect :
    (host : Bool) (d d' d'' : Display)
    → wins_of d'' ≡ wins_of d'
    → d''.next_id ≡ d'.next_id
    → Effect host d d'
    → Effect host d d''
then-Effect host d d' d'' w n (stays a b) = stays (w ∙ a) (n ∙ b)
then-Effect host d d' d'' w n (changes i gw a b lt u may u' same ring) =
    changes i gw (w ∙ a) (n ∙ b) lt u may u' same ring
then-Effect host d d' d'' w n (closes i a b lt u may) = closes i (w ∙ a) (n ∙ b) lt u may
then-Effect host d d' d'' w n (opens i gw a b lt u u' same ring) =
    opens i gw (w ∙ a) (n ∙ b) lt u u' same ring
then-Effect host d d' d'' w n (blanks i gw a b lt u u' ring) =
    blanks i gw (w ∙ a) (n ∙ b) lt u u' ring

present-Effect :
    (host : Bool) (frame : Option Frame) (d d' : Display)
    → Effect host d d'
    → Effect host d (after (present frame d'))
unfolding present
present-Effect host none d d' e = e
present-Effect host (some frame) d d' e = elim (Bool-cases (d'.server_pid == 0)) [
  | inl no' ↦ rw (present, no') e
  | inr server ↦ elim (Option-cases (proc_yield_to_parent frame d'.slices)) [
    | inl alone ↦ rw (present, server, alone) e
    | inr (r, left') ↦
        rw (present, server, left')
          (then-Effect host d d' (record d' { slices = r.1 })
            (rw left' at (yield-KeepsWins frame d'.slices)) refl e)
  ]
]

module _ (host : Bool) (d : Display) (rings : (i : ℕ) → IsRing (win_at (wins_of d) i)) where
  display_damage-Effect :
      (id : ℕ) (frame : Option Frame) → Effect host d (after (display_damage id frame d))
  unfolding display_damage
  display_damage-Effect id frame = elim (Option-cases (win_by_id id d)) [
    | inl miss ↦ rw (display_damage, miss) (stays refl refl)
    | inr (i, hit) ↦ elim (Bool-cases (is_owner (win_at (wins_of d) i) d)) [
      | inr no' ↦ rw (display_damage, hit, no') (stays refl refl)
      | inl may ↦
          rw (display_damage, hit, may)
            (present-Effect host frame d
              (put_win i (record (win_at (wins_of d) i) { damage = true }) d)
              (edit-Effect host d rings id i (λ w. record w { damage = true })
                (Plain-IsEdit _ (λ w. (refl, refl, refl, refl, refl))) hit (ground arith)))
    ]
  ]

  create_at-Effect :
      (i w h : ℕ) (title : List ℕ)
      → i < length (wins_of d)
      → (win_at (wins_of d) i).win_used ≡ false
      → Effect host d (create_at i w h title d).1
  unfolding create_at fill_win
  create_at-Effect i w h title lt free =
      let ring = rings i in
      elim (Option-cases (zeroed_pages (pages_for w h) (mm_of d)).0) [
        | inl null ↦
            rw (create_at, null)
              (blanks i (record (win_at (wins_of d) i) { pixels = 0 }) refl refl lt free free
                (record { cells = ring.cells; reads = ring.reads; writes = ring.writes }))
        | inr (p, done) ↦
            rw (create_at, done, fill_win)
              (opens i _ refl refl lt free refl refl
                (record { cells = ring.cells; reads = omega arith; writes = omega arith }))
      ]

  display_create-Effect : (w h : ℕ) (title : List ℕ) → Effect host d (display_create w h title d).1
  unfolding display_create
  display_create-Effect w h title = elim (Bool-cases ((d.server_pid == 0) || bad_size w h)) [
    | inl no' ↦ rw (display_create, no') (stays refl refl)
    | inr well ↦ elim (Option-cases (free_win_from (wins_of d) 0)) [
      | inl full ↦ rw (display_create, well, full) (stays refl refl)
      | inr (i, slot) ↦
          let (t, at, lt, free) = free_win_from_hit (wins_of d) 0 i slot in
          let e : t ≡ i = omega arith in
          rw (display_create, well, slot) (create_at-Effect i w h title (rw e at lt) (rw e at free))
    ]
  ]

  -- A window is rewritten, and then gets an event from the server.
  post_after-Effect :
      (id i : ℕ) (e : GuiEvt) (gw : GuiWin) (mm : Mm)
      → win_by_id id d ≡ some i
      → is_server d ≡ true
      → gw.win_used ≡ (win_at (wins_of d) i).win_used
      → gw.win_id ≡ (win_at (wins_of d) i).win_id
      → IsRing gw
      → Effect host d (display_post_event id e (with_wins (set (wins_of d) i gw) mm d)).1
  post_after-Effect id i e gw mm hit server u' same' ring =
      let (lt, u, same) = found id i d hit in
      rw (display_post_event_after d id i e gw mm hit server u' same') (
        changes i (post_evt e gw).1 refl refl lt u (ground arith)
          ((window-post_evt e gw).0 ∙ u' ∙ u) ((window-post_evt e gw).1 ∙ same')
          (post_evt-Agrees e gw ring).2)

  resize_with-Effect :
      (i id w h : ℕ) (a : Option ℕ × Mm)
      → win_by_id id d ≡ some i
      → is_server d ≡ true
      → Effect host d (resize_with i id w h d a).1
  unfolding resize_with
  resize_with-Effect i id w h (none, mm) hit server = stays refl refl
  resize_with-Effect i id w h (some p, mm) hit server =
      let ring = rings i in
      post_after-Effect id i _ _ _ hit server refl refl
        (record { cells = ring.cells; reads = ring.reads; writes = ring.writes })

  display_resize-Effect : (id w h : ℕ) → Effect host d (display_resize id w h d).1
  unfolding display_resize resize_at
  display_resize-Effect id w h = elim (Option-cases (win_by_id id d)) [
    | inl miss ↦ rw (display_resize, miss) (stays refl refl)
    | inr (i, hit) ↦ elim (Bool-cases (not (is_server d) || bad_size w h)) [
      | inl no' ↦ rw (display_resize, hit, no') (stays refl refl)
      | inr well ↦
          let gw = win_at (wins_of d) i in
          elim (Bool-cases ((w == gw.w) && (h == gw.h))) [
            | inl same ↦ rw (display_resize, hit, well, same) (stays refl refl)
            | inr other ↦
                rw (display_resize, hit, well, other)
                  (resize_with-Effect i id w h (zeroed_pages (pages_for w h) (mm_of d)) hit
                    (ground arith))
          ]
    ]
  ]

  display_server_set-Effect : (on : Bool) → Effect host d (display_server_set on d).1
  unfolding display_server_set
  display_server_set-Effect true = stays (ground arith) (ground arith)
  display_server_set-Effect false = stays (ground arith) (ground arith)

  display_request_launch-Effect :
      (path argv : List ℕ) → Effect host d (display_request_launch path argv d).1
  unfolding display_request_launch
  display_request_launch-Effect [] argv = stays (ground arith) (ground arith)
  display_request_launch-Effect (c ∷ path) argv = stays (ground arith) (ground arith)

  display_take_launch-Effect : (n : ℕ) → Effect host d (display_take_launch n d).1
  unfolding display_take_launch
  display_take_launch-Effect n = stays (ground arith) (ground arith)

-- A console host is one that may put events into the windows of others.
abbrev pub is_post : Call → Bool
is_post (post_event id e) = true
is_post _ = false

pub call-Effect :
    (c : Call) (d : Display)
    → ((i : ℕ) → IsRing (win_at (wins_of d) i))
    → Effect (is_post c && (caller d).cons_host) d (call c d)
unfolding call
call-Effect (server_set on) d rings = display_server_set-Effect false d rings on
call-Effect (create w h title) d rings = display_create-Effect false d rings w h title
call-Effect (damaged id frame) d rings = display_damage-Effect false d rings id frame
call-Effect (destroy id) d rings = display_destroy-Effect false d rings id
call-Effect (set_flags id flags) d rings = display_set_flags-Effect false d rings id flags
call-Effect (resize id w h) d rings = display_resize-Effect false d rings id w h
call-Effect (set_title id title) d rings = display_set_title-Effect false d rings id title
call-Effect (ack_map id) d rings = display_ack_map-Effect false d rings id
call-Effect (ack_damage id) d rings = display_ack_damage-Effect false d rings id
call-Effect (request_launch path argv) d rings =
    display_request_launch-Effect false d rings path argv
call-Effect (take_launch n) d rings = display_take_launch-Effect false d rings n
call-Effect (post_event id e) d rings = display_post_event-Effect d rings id e
call-Effect (poll_event id) d rings = display_poll_event-Effect false d rings id
