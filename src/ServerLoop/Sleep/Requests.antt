-- ===== src/ServerLoop/Sleep/Requests.antt =====
-- The sleeps that the loops ask for.
use rehlds_m.Base.{
  ℕ, suc, ◌+◌, ◌≤◌, ◌≡◌, ap, ◌∙◌, Option, none, some, List, [], ◌∷◌, ◌++◌, length, length-append,
  arith,
}
use rehlds_m.Base.Int.{ℤ, negsuc, ◌≤ℤ◌}
use rehlds_m.ServerLoop.{
  SleepFunc, sleep_1ms, sleep_timer, sleep_1ms_poll, sleep_net, sleep_1us, yield_thread,
}
use rehlds_m.ServerLoop.Pacing.{
  Double, Platform, Frame, Paced, paced_frame, paced_frames, sleep_duration,
}
use rehlds_m.ServerLoop.Sleep.{
  Request, sleeps_for, polls, waits_for_timer, calls, delays, yields, System, on_linux, on_windows,
  request_of, linux_request, windows_request, Ran, slept_frame, slept_frames, slept_status,
}

-- At most a millisecond of the system's clock; the function of the engine waits as long as it does.
abbrev pub IsShort : Request → Type 0
IsShort (sleeps_for ns) = ns ≤ 1_000_000
IsShort (polls ms) = ms ≤ 1
IsShort (waits_for_timer us) = us ≤ 1_000
IsShort (calls address) = Unit
IsShort (delays z) = negsuc 9_999 ≤ℤ z
IsShort yields = Unit

abbrev pub AreShort : List Request → Type 0
AreShort [] = Unit
AreShort (request ∷ requests) = IsShort request × AreShort requests

AreShort-append :
    (rs : List Request) (r : Request) → AreShort rs → IsShort r → AreShort (rs ++ (r ∷ []))
AreShort-append [] r a s = (s, a)
AreShort-append (q ∷ rs) r (t, a) s = (t, AreShort-append rs r a s)

net_request_IsShort : (system : System) (net : Option ℕ) → IsShort (request_of system net sleep_net)
unfolding linux_request windows_request
net_request_IsShort on_linux none = omega arith
net_request_IsShort on_linux (some address) = tt
net_request_IsShort on_windows none = omega arith
net_request_IsShort on_windows (some address) = tt

pub request_of-IsShort :
    (system : System) (net : Option ℕ) (sleep : SleepFunc) → IsShort (request_of system net sleep)
unfolding linux_request windows_request
request_of-IsShort on_linux net sleep_1ms = omega arith
request_of-IsShort on_linux net sleep_timer = omega arith
request_of-IsShort on_linux net sleep_1ms_poll = omega arith
request_of-IsShort on_linux net sleep_net = net_request_IsShort on_linux net
request_of-IsShort on_linux net sleep_1us = omega arith
request_of-IsShort on_linux net yield_thread = tt
request_of-IsShort on_windows net sleep_1ms = omega arith
request_of-IsShort on_windows net sleep_timer = omega arith
request_of-IsShort on_windows net sleep_1ms_poll = omega arith
request_of-IsShort on_windows net sleep_net = net_request_IsShort on_windows net
request_of-IsShort on_windows net sleep_1us = omega arith
request_of-IsShort on_windows net yield_thread = tt

length-snoc {ℓ} : {A : Type ℓ} (xs : List A) (x : A) → length (xs ++ (x ∷ [])) ≡ suc (length xs)
length-snoc xs x = length-append xs (x ∷ []) ∙ (omega arith)

-- The sleeps of the frames with a function.
pub slept_frames-length :
    (system : System) (request : Request) (frames : List Frame) (r : Ran)
    → length (slept_frames system request frames r).requests ≡ length r.requests + length frames
unfolding slept_frames slept_frame slept_status
slept_frames-length system request [] r = omega arith
slept_frames-length on_linux request (frame ∷ frames) r =
    slept_frames-length on_linux request frames (slept_frame on_linux request frame r)
    ∙ ap (λ n. n + length frames) (length-snoc r.requests request)
    ∙ (omega arith)
slept_frames-length on_windows request (frame ∷ frames) r =
    slept_frames-length on_windows request frames (slept_frame on_windows request frame r)
    ∙ ap (λ n. n + length frames) (length-snoc r.requests request)
    ∙ (omega arith)

pub slept_frames-AreShort :
    (system : System) (request : Request) (frames : List Frame) (r : Ran)
    → IsShort request
    → AreShort r.requests
    → AreShort (slept_frames system request frames r).requests
unfolding slept_frames slept_frame slept_status
slept_frames-AreShort system request [] r h a = a
slept_frames-AreShort on_linux request (frame ∷ frames) r h a =
    slept_frames-AreShort on_linux request frames (slept_frame on_linux request frame r) h
      (AreShort-append r.requests request a h)
slept_frames-AreShort on_windows request (frame ∷ frames) r h a =
    slept_frames-AreShort on_windows request frames (slept_frame on_windows request frame r) h
      (AreShort-append r.requests request a h)

-- The sleeps of the frames at a rate.
pub paced_frames-length :
    (d : Double) (platform : Platform) (target : ℤ) (frames : List Frame) (p : Paced)
    → length (paced_frames d platform target frames p).sleeps ≡ length p.sleeps + length frames
unfolding paced_frames paced_frame
paced_frames-length d platform target [] p = omega arith
paced_frames-length d platform target (frame ∷ frames) p =
    paced_frames-length d platform target frames (paced_frame d platform target frame p)
    ∙ ap (λ n. n + length frames)
        (length-snoc p.sleeps (sleep_duration d platform target p.ama_duration))
    ∙ (omega arith)
