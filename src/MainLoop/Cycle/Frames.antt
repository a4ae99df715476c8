-- ===== src/MainLoop/Cycle/Frames.antt =====
-- Every motor frame that the main loop writes: src/main.rs over src/ble.rs.
use hub_core.Base.{
  ◌≡◌, ◌∙◌, ap, sym, refl, ◌⊎◌, inl, inr, ℕ, ◌≤◌, false, List, [], ◌∷◌, ◌++◌, map, All, All-append,
  Option, none, some, arith, Bool-cases,
}
use hub_core.Base.Text.{Text}
use hub_core.Base.Result.{Run, Result, ok, err, panic}
use hub_core.Motor.Command.Decode.{MotorFields, decode_command, build-limited}
use hub_core.Probe.Adverts.{is_setup}
use hub_core.Probe.Readings.{get_unix_now_ms}
use hub_core.Probe.Scan.{ProbeCandidate, ScanError, scan_probe_candidates}
use hub_core.Poller.State.{Session, MotorDispatchRequest}
use hub_core.Ble.Link.{Device, Link}
use hub_core.Ble.Visit.{ProbeSessionResult, VisitError, read_probe_and_maybe_dispatch_motor}
use hub_core.Ble.Setup.{SetupError, new_client, confirm_and_close, acknowledge_setup_probe}
use hub_core.Ble.Written.{FrameFor, read_probe_and_maybe_dispatch_motor-honest}
use hub_core.Grpc.{Server}
use hub_core.MainLoop.Cycle.{
  pending_for, Air, Main, noted, take_session, after_visit, after_acknowledge, visit, acknowledge,
  for_candidate, go_on, for_all, poll_commands_in_quiet_window, after_scan, turn,
}

-- The probe reads a known action and at most 5 s from it.
abbrev pub Limited : List ℕ → Type 0
Limited frame =
    (f : MotorFields) × (decode_command frame ≡ some f) × (f.action ≤ 1) × (f.duration ≤ 5000)

-- One of the candidates has the address, and is not in setup mode.
abbrev pub IsWorking : List ProbeCandidate → Text → Type 0
IsWorking [] addr = ⊥
IsWorking (c ∷ cs) addr = ((c.addr ≡ addr) × (is_setup c.meta.mode ≡ false)) ⊎ IsWorking cs addr

abbrev pub GoodFrame : List ProbeCandidate → Text × List ℕ → Type 0
GoodFrame cs p = IsWorking cs p.0 × Limited p.1

-- What was written between two states.
abbrev pub Wrote : List ProbeCandidate → Main → Main → Type 0
Wrote cs s t = (new : List (Text × List ℕ)) × (t.frames ≡ new ++ s.frames) × All (GoodFrame cs) new

module _ (e : Session) (server : Server) where
  Wrote-nothing : (cs : List ProbeCandidate) (s t : Main) → t.frames ≡ s.frames → Wrote cs s t
  Wrote-nothing cs s t h = ([], h, tt)

  append_assoc : (xs ys zs : List (Text × List ℕ)) → (xs ++ ys) ++ zs ≡ xs ++ (ys ++ zs)
  append_assoc [] ys zs = refl
  append_assoc (x ∷ xs) ys zs = ap (λ l. x ∷ l) (append_assoc xs ys zs)

  Wrote-then :
      (cs : List ProbeCandidate) (s t u : Main) → Wrote cs s t → Wrote cs t u → Wrote cs s u
  Wrote-then cs s t u (n, h, a) (m, k, b) = (
    m ++ n,
    k ∙ ap (λ l. m ++ l) h ∙ sym (append_assoc m n s.frames),
    All-append (GoodFrame cs) m n b a,
  )

  GoodFrame-cons :
      (c : ProbeCandidate) (cs : List ProbeCandidate) (new : List (Text × List ℕ))
      → All (GoodFrame cs) new
      → All (GoodFrame (c ∷ cs)) new
  GoodFrame-cons c cs [] a = tt
  GoodFrame-cons c cs (x ∷ xs) ((w, l), a) = ((inr w, l), GoodFrame-cons c cs xs a)

  Wrote-cons :
      (c : ProbeCandidate) (cs : List ProbeCandidate) (s t : Main)
      → Wrote cs s t
      → Wrote (c ∷ cs) s t
  Wrote-cons c cs s t (n, h, a) = (n, h, GoodFrame-cons c cs n a)

  after_visit-frames :
      (r : Result VisitError (Option ProbeSessionResult)) (s : Main)
      → (after_visit e server r s).1.frames ≡ s.frames
  unfolding after_visit take_session
  after_visit-frames (ok (some session)) s = refl
  after_visit-frames (ok none) s = refl
  after_visit-frames (err x) s = refl
  after_visit-frames panic s = refl

  after_acknowledge-frames :
      (r : Result SetupError (Unit {0})) (s : Main)
      → (after_acknowledge e server r s).1.frames ≡ s.frames
  unfolding after_acknowledge
  after_acknowledge-frames (ok u) s = refl
  after_acknowledge-frames (err x) s = refl
  after_acknowledge-frames panic s = refl

  FrameFor-Limited :
      (d : Device) (r : MotorDispatchRequest) (s t : Link)
      → FrameFor d r s t
      → (frame : List ℕ) × (t.written ≡ frame ∷ s.written) × Limited frame
  FrameFor-Limited d r s t (frame, n, written, built) = (
    frame,
    written,
    build-limited r.command_id r.action r.duration_ms r.expires_at_epoch_ms
        (get_unix_now_ms (d.clock n)) frame built,
  )

  visit-Wrote :
      (d : Device) (c : ProbeCandidate) (cs : List ProbeCandidate) (s : Main)
      → is_setup c.meta.mode ≡ false
      → Wrote (c ∷ cs) s (visit e server d c s).1
  unfolding visit
  visit-Wrote d c cs s normal =
      let visited = read_probe_and_maybe_dispatch_motor d (pending_for e server s) new_client in
      let same = after_visit-frames visited.0 (noted c.addr visited.1 s) in
      elim (read_probe_and_maybe_dispatch_motor-honest d (pending_for e server s) new_client) [
        | inl (nothing, rest) ↦
            Wrote-nothing (c ∷ cs) s (after_visit e server visited.0 (noted c.addr visited.1 s)).1
              (same ∙ ap (λ l. map (λ frame. (c.addr, frame)) l ++ s.frames) nothing)
        | inr (x, r, out, says, asked, frame) ↦
            let (bytes, written, good) = FrameFor-Limited d r new_client visited.1 frame in
            (
              (c.addr, bytes) ∷ [],
              same ∙ ap (λ l. map (λ frame. (c.addr, frame)) l ++ s.frames) written,
              ((inl (refl, normal), good), tt),
            )
      ]

  acknowledge_setup_probe-written :
      (d : Device) (s : Link) → (acknowledge_setup_probe d s).1.written ≡ s.written
  unfolding acknowledge_setup_probe confirm_and_close
  acknowledge_setup_probe-written d s = ground arith

  acknowledge-frames :
      (d : Device) (c : ProbeCandidate) (s : Main)
      → (acknowledge e server d c s).1.frames ≡ s.frames
  unfolding acknowledge
  acknowledge-frames d c s =
      let done = acknowledge_setup_probe d new_client in
      after_acknowledge-frames done.0 (noted c.addr done.1 s)
      ∙ ap (λ l. map (λ frame. (c.addr, frame)) l ++ s.frames)
          (acknowledge_setup_probe-written d new_client)

  for_candidate-Wrote :
      (d : Device) (c : ProbeCandidate) (cs : List ProbeCandidate) (s : Main)
      → Wrote (c ∷ cs) s (for_candidate e server d c s).1
  unfolding for_candidate
  for_candidate-Wrote d c cs s = elim (Bool-cases (is_setup c.meta.mode)) [
    | inl setup ↦
        rw setup
          (Wrote-nothing (c ∷ cs) s (acknowledge e server d c s).1 (acknowledge-frames d c s))
    | inr normal ↦ rw normal (visit-Wrote d c cs s normal)
  ]

  go_on-Wrote :
      (cs : List ProbeCandidate) (s : Main) (p : Run (Unit {0}) × Main)
      (k : Main → Run (Unit {0}) × Main)
      → Wrote cs s p.1
      → ((t : Main) → Wrote cs t (k t).1)
      → Wrote cs s (go_on e server p k).1
  go_on-Wrote cs s (ok u, t) k w rest = Wrote-then cs s t (k t).1 w (rest t)
  go_on-Wrote cs s (err x, t) k w rest = elim x [ ]
  go_on-Wrote cs s (panic, t) k w rest = w

  for_all-Wrote :
      (device_at : Text → Device) (cs : List ProbeCandidate) (s : Main)
      → Wrote cs s (for_all e server device_at cs s).1
  unfolding for_all
  for_all-Wrote device_at [] s = Wrote-nothing [] s s refl
  for_all-Wrote device_at (c ∷ cs) s =
      go_on-Wrote (c ∷ cs) s (for_candidate e server (device_at c.addr) c s)
        (λ t. for_all e server device_at cs t) (for_candidate-Wrote (device_at c.addr) c cs s)
        (λ t. Wrote-cons c cs t (for_all e server device_at cs t).1 (for_all-Wrote device_at cs t))

  -- The candidates of a turn.
  abbrev pub found : Result ScanError (List ProbeCandidate) → List ProbeCandidate
  found (ok cs) = cs
  found (err x) = []
  found panic = []

  after_scan-Wrote :
      (device_at : Text → Device) (r : Result ScanError (List ProbeCandidate)) (s : Main)
      → Wrote (found r) s (after_scan e server device_at r s).1
  unfolding after_scan poll_commands_in_quiet_window
  after_scan-Wrote device_at (err x) s = ([], refl, tt)
  after_scan-Wrote device_at panic s = ([], refl, tt)
  after_scan-Wrote device_at (ok []) s = ([], refl, tt)
  after_scan-Wrote device_at (ok (c ∷ cs)) s =
      go_on-Wrote (c ∷ cs) s (for_all e server device_at (c ∷ cs) s)
        (λ t. (ok tt, poll_commands_in_quiet_window e server t))
        (for_all-Wrote device_at (c ∷ cs) s) (λ t. ([], refl, tt))

  pub All-Limited :
      (cs : List ProbeCandidate) (new : List (Text × List ℕ))
      → All (GoodFrame cs) new
      → All (λ (p : Text × List ℕ). Limited p.1) new
  All-Limited cs [] a = tt
  All-Limited cs (x ∷ xs) (g, a) = (g.1, All-Limited cs xs a)

  abbrev pub AllLimited : Main → Type 0
  AllLimited s = All (λ (p : Text × List ℕ). Limited p.1) s.frames

-- What one turn writes to motors are frames for candidates of its own scan that are not in setup mode, and
-- from each the probe reads a known action and a duration of at most 5 s.
pub turn-Wrote :
    (e : Session) (server : Server) (air : Air) (s : Main)
    → Wrote
        (found e server (scan_probe_candidates air.adverts air.scan_ends_well))
        s
        (turn e server air s).1
unfolding turn
turn-Wrote e server air s =
    after_scan-Wrote e server air.device_at (scan_probe_candidates air.adverts air.scan_ends_well) s
