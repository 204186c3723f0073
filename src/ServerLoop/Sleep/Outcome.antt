-- ===== src/ServerLoop/Sleep/Outcome.antt =====
-- What a run can come to.
use rehlds_m.Base.{
  ℕ, ◌*◌, ◌≤◌, ◌≡◌, ◌≢◌, ap, ◌∙◌, ◌⊎◌, inl, inr, false, Bool-cases, Option, none, some, List, [],
  ◌∷◌, ◌++◌, map, length, length-map, take, drop, Text, arith,
}
use rehlds_m.Base.Int.{ℤ, pos, ◌≤ℤ◌}
use rehlds_m.ServerLoop.{
  SleepFunc, level1, level4, target_fps, ServerLoop, ServerStatus, Task, Loop, at_frame,
  update_status, blank_map, run,
}
use rehlds_m.ServerLoop.Frames.{steps, at_start}
use rehlds_m.ServerLoop.Pacing.{
  Double, Frame, started, process_tasks, process_input, run_paced, target_sleep_duration,
}
use rehlds_m.ServerLoop.Pacing.Steps.{
  SameQueues, run_paced-steps, process_queues, after, after-zero, after-suc, after-SameQueues,
}
use rehlds_m.ServerLoop.Sleep.{
  Request, System, on_linux, on_windows, Host, request_of, paced_request, Ran, begun, slept_frame,
  slept_frames, slept_status, platform_of, run_whole,
}
use rehlds_m.ServerLoop.Sleep.Requests.{
  AreShort, request_of-IsShort, slept_frames-length, slept_frames-AreShort, paced_frames-length,
}

abbrev pub AsksForRate : ServerLoop → Type 0
AsksForRate s = (s.pingboost_level ≡ target_fps) × (pos 1 ≤ℤ s.target_fps_)

-- What the settings of the loop need of the system is refused.
abbrev pub Lacks : System → Host → ServerLoop → Type 0
Lacks on_linux host s = (s.pingboost_level ≡ level1) × (host.sets_handler ≡ false)
Lacks on_windows host s =
    ((s.pingboost_level ≡ level4) ⊎ AsksForRate s) × (host.timer_resolution_status 1 ≢ pos 0)

-- A run is one of the steps of the loop, with one sleep for each frame.
abbrev pub RunsFrames : List Frame → Loop → Ran → Type 0
RunsFrames frames l r =
    let n = length frames in
    (length r.requests ≡ n)
    × ((k : ℕ) × (k ≤ 5 * n)
        × SameQueues r.loop (run l (steps k))
        × (r.loop.fulfilled ≡ l.fulfilled ++ take n l.server.task_queue.queue)
        × (r.loop.received ≡ l.received ++ take n l.server.input_queue.queue))

slept_status-loop :
    (system : System) (frame : Frame) (r : Ran) (l : Loop)
    → r.loop ≡ l
    → (status : ServerStatus) × ((slept_status system frame r).loop
        ≡ record l { server = record l.server { status = status } })
unfolding slept_status update_status
slept_status-loop on_linux frame r l e = (l.server.status, e)
slept_status-loop on_windows frame r l e = elim (Bool-cases frame.is_time) [
  | inl q ↦ (
    frame.update (record l.server.status { current_map = blank_map }),
    rw q (
        ap {A = Loop}
          (λ m. record m {
            server = record m.server {
              status = frame.update (record m.server.status { current_map = blank_map });
            };
          })
          e),
  )
  | inr q ↦ (l.server.status, rw q e)
]

module _ (system : System) (request : Request) where
  slept_frames-after :
      (frames : List Frame) (x : Ran) (s : ServerLoop) (f : List Task) (r : List Text)
      (tasks : List Task) (inputs : List Text)
      → x.loop ≡ at_start s f r tasks inputs
      → (s' : ServerLoop) × ((slept_frames system request frames x).loop
          ≡ after s' f r tasks inputs (length frames))
  unfolding slept_frames slept_frame
  slept_frames-after [] x s f r tasks inputs e = (s, e ∙ after-zero s f r tasks inputs)
  slept_frames-after (frame ∷ frames) x s f r tasks inputs e =
      let asked : Ran = record {
        loop = process_input (process_tasks x.loop);
        requests = x.requests ++ (request ∷ []);
        notified = x.notified;
      } in
      let (status, e1) =
        slept_status-loop system frame asked
          (at_start s (f ++ take 1 tasks) (r ++ take 1 inputs) (drop 1 tasks) (drop 1 inputs))
          (ap (λ l. process_input (process_tasks l)) e ∙ process_queues s f r tasks inputs) in
      let s1 = record s { status = status } in
      let (s2, e2) =
        slept_frames-after frames (slept_frame system request frame x) s1 (f ++ take 1 tasks)
          (r ++ take 1 inputs) (drop 1 tasks) (drop 1 inputs) e1 in
      (s2, e2 ∙ after-suc s2 f r tasks inputs (length frames))

  slept_frames-RunsFrames :
      (frames : List Frame) (l : Loop)
      → l.phase ≡ at_frame
      → RunsFrames frames l (slept_frames system request frames (begun l))
  slept_frames-RunsFrames frames l e =
      let here = ap (λ phase. record l { phase = phase }) e in
      let (s', p) =
        slept_frames-after frames (begun l) l.server l.fulfilled l.received
          l.server.task_queue.queue l.server.input_queue.queue here in
      (
        slept_frames-length system request frames (begun l) ∙ (omega arith),
        after-SameQueues l (slept_frames system request frames (begun l)).loop s' (length frames) e
            p,
      )

-- The run gives up, or it goes on for the frames.
abbrev pub Outcome : Double → System → Host → List Frame → Loop → Type 0
Outcome d system host frames l =
    (Lacks system host l.server × (run_whole d system host frames l ≡ none))
    ⊎ ((¬ Lacks system host l.server)
        × (r : Ran) × (run_whole d system host frames l ≡ some r)
        × RunsFrames frames l r
        × (AsksForRate l.server ⊎ AreShort r.requests))

module _ (d : Double) (host : Host) (frames : List Frame) (l : Loop) (e : l.phase ≡ at_frame) where
  pub slept_outcome :
      (system : System) (sleep : SleepFunc) (net : Option ℕ)
      → (¬ Lacks system host l.server)
      → run_whole d system host frames l
        ≡ some (slept_frames system (request_of system net sleep) frames (begun l))
      → Outcome d system host frames l
  slept_outcome system sleep net has q =
      let request = request_of system net sleep in
      inr (
        has,
        slept_frames system request frames (begun l),
        q,
        slept_frames-RunsFrames system request frames l e,
        inr (
            slept_frames-AreShort system request frames (begun l)
              (request_of-IsShort system net sleep) tt),
      )

  pub paced_outcome :
      (system : System) (fps : ℤ)
      → AsksForRate l.server
      → (¬ Lacks system host l.server)
      → run_whole d system host frames l
        ≡ some (record {
          loop = (run_paced d (platform_of system) fps frames l).loop;
          requests =
              map (paced_request system) (run_paced d (platform_of system) fps frames l).sleeps;
          notified = (run_paced d (platform_of system) fps frames l).notified;
        })
      → Outcome d system host frames l
  unfolding run_paced
  paced_outcome system fps asks has q =
      let p = run_paced d (platform_of system) fps frames l in
      let target = target_sleep_duration d fps in
      inr (
        has,
        record {
          loop = p.loop;
          requests = map (paced_request system) p.sleeps;
          notified = p.notified;
        },
        q,
        (
          length-map (paced_request system) p.sleeps
              ∙ paced_frames-length d (platform_of system) target frames (started l)
              ∙ (omega arith),
          run_paced-steps d (platform_of system) fps frames l e,
        ),
        inl asks,
      )
