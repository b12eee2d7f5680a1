-- ===== src/Dns/StartupLaws.antt =====
-- What a run of ebpf/tracer_linux.go leaves open.
use egressd.Prelude.{
  ℕ, ◌+◌, ◌-◌, ◌<◌, ◌≡◌, refl, ap, ◌∙◌, ◌≢◌, ◌⊎◌, inl, inr, not, ◌&&◌, Option, none, some, List, [],
  ◌∷◌, ◌++◌, arith, String, ◌==◌, nat_comparable, string_comparable, Bool-cases, Option-cases,
}
use egressd.Dns.Tracer.{detect_cgroup_path}
use egressd.Dns.Startup.{
  System, RunError, loop_ended, Step, objects_loaded, objects_closed, cgroup2_mounted,
  reader_opened, link_closed, link_attached, Run, after, deferred, Detected, found, not_mounted,
  not_opened, detect, mount_cgroup2, attach, attach_detected, find_and_attach, run,
}

-- What is open after the steps: objects, links and readers.
pub record Open : Type 0 where
  pub objects : ℕ
  pub links : ℕ
  pub readers : ℕ

abbrev pub nothing : Open
nothing = record { objects = 0; links = 0; readers = 0 }

unfoldable pub open_after : List Step → Open → Open
open_after [] o = o
open_after (objects_loaded ∷ steps) o = open_after steps (record o { objects = o.objects + 1 })
open_after (objects_closed ∷ steps) o = open_after steps (record o { objects = o.objects - 1 })
open_after (cgroup2_mounted ∷ steps) o = open_after steps o
open_after (reader_opened ∷ steps) o = open_after steps (record o { readers = o.readers + 1 })
open_after (link_closed ∷ steps) o = open_after steps (record o { links = o.links - 1 })
open_after (link_attached path ∷ steps) o = open_after steps (record o { links = o.links + 1 })

-- The links that the steps attach.
unfoldable pub attached : List Step → List String
attached [] = []
attached (link_attached path ∷ steps) = path ∷ attached steps
attached (objects_loaded ∷ steps) = attached steps
attached (objects_closed ∷ steps) = attached steps
attached (cgroup2_mounted ∷ steps) = attached steps
attached (reader_opened ∷ steps) = attached steps
attached (link_closed ∷ steps) = attached steps

-- Where cgroup2 is mounted at the first or at the second look.
abbrev pub IsMounted : System → String → Type 0
IsMounted sys path =
    (n : ℕ) × (n < 2)
    × (lines : List (List String)) × (sys.mounts n ≡ some lines)
    × (detect_cgroup_path lines ≡ some path)

detect-found :
    (mounts : Option (List (List String))) (path : String)
    → detect mounts ≡ found path
    → (lines : List (List String)) × (mounts ≡ some lines) × (detect_cgroup_path lines ≡ some path)
unfolding detect
detect-found none path e = cc
detect-found (some lines) path e = elim (Option-cases (detect_cgroup_path lines)) [
  | inl missing ↦ absurd (ground (arith, missing))
  | inr (q, there) ↦ (lines, refl, ground (arith, there))
]

open_after-append :
    (xs ys : List Step) (o : Open) → open_after (xs ++ ys) o ≡ open_after ys (open_after xs o)
unfolding open_after
open_after-append [] ys o = refl
open_after-append (objects_loaded ∷ xs) ys o = open_after-append xs ys _
open_after-append (objects_closed ∷ xs) ys o = open_after-append xs ys _
open_after-append (cgroup2_mounted ∷ xs) ys o = open_after-append xs ys o
open_after-append (reader_opened ∷ xs) ys o = open_after-append xs ys _
open_after-append (link_closed ∷ xs) ys o = open_after-append xs ys _
open_after-append (link_attached path ∷ xs) ys o = open_after-append xs ys _

-- Where a run ends, what its steps do to what is open, and which links they attach.
abbrev pub Leaves : System → Run → Type 0
Leaves sys (steps, e) =
    ((e ≢ loop_ended) × ((o : Open) → open_after steps o ≡ o))
    ⊎ ((e ≡ loop_ended)
        × ((o : Open) → open_after steps o ≡ record o { readers = o.readers + 1 })
        × (path : String) × (attached steps ≡ path ∷ [])
        × IsMounted sys path)

attached-append : (xs ys : List Step) → attached (xs ++ ys) ≡ attached xs ++ attached ys
unfolding attached
attached-append [] ys = refl
attached-append (link_attached path ∷ xs) ys = ap (◌∷◌ path) (attached-append xs ys)
attached-append (objects_loaded ∷ xs) ys = attached-append xs ys
attached-append (objects_closed ∷ xs) ys = attached-append xs ys
attached-append (cgroup2_mounted ∷ xs) ys = attached-append xs ys
attached-append (reader_opened ∷ xs) ys = attached-append xs ys
attached-append (link_closed ∷ xs) ys = attached-append xs ys

same_links : (o : Open) → record o { links = o.links + 1 - 1 } ≡ o
same_links o = ap (λ (n : ℕ). record o { links = n }) (omega arith)

attach-Leaves : (sys : System) (path : String) → IsMounted sys path → Leaves sys (attach sys path)
unfolding attach open_after attached
attach-Leaves sys path mounted = elim (Bool-cases (sys.attach_cgroup path)) [
  | inr refused ↦ rw refused (inl (λ e. cc, λ o. refl))
  | inl done ↦ elim (Bool-cases sys.new_reader) [
    | inr none_ ↦ rw (done, none_) (inl (λ e. cc, same_links))
    | inl made ↦
        rw (done, made)
          (inr (refl, λ o. same_links (record o { readers = o.readers + 1 }), path, refl, mounted))
  ]
]

attach_detected-Leaves :
    (sys : System) (n : ℕ) → n < 2 → Leaves sys (attach_detected sys (detect (sys.mounts n)))
unfolding attach_detected open_after
attach_detected-Leaves sys n first_two = go (detect (sys.mounts n)) refl
  where
    go : (d : Detected) → detect (sys.mounts n) ≡ d → Leaves sys (attach_detected sys d)
    go (found path) e =
        let (lines, read, at) = detect-found (sys.mounts n) path e in
        attach-Leaves sys path (n, first_two, lines, read, at)
    go not_mounted e = inl (λ x. cc, λ o. refl)
    go not_opened e = inl (λ x. cc, λ o. refl)

mounted_first : (sys : System) (r : Run) → Leaves sys r → Leaves sys (after cgroup2_mounted r)
unfolding open_after attached
mounted_first sys r h = h

mount_cgroup2-error : (sys : System) (e : RunError) → mount_cgroup2 sys ≡ some e → e ≢ loop_ended
unfolding mount_cgroup2
mount_cgroup2-error sys e h = ground arith

find_and_attach-Leaves : (sys : System) → Leaves sys (find_and_attach sys (detect (sys.mounts 0)))
unfolding find_and_attach open_after
find_and_attach-Leaves sys = go (detect (sys.mounts 0)) refl
  where
    go : (d : Detected) → detect (sys.mounts 0) ≡ d → Leaves sys (find_and_attach sys d)
    go (found path) e =
        let (lines, read, at) = detect-found (sys.mounts 0) path e in
        attach-Leaves sys path (0, omega arith, lines, read, at)
    go not_opened e = inl (λ x. cc, λ o. refl)
    go not_mounted e = elim (Option-cases (mount_cgroup2 sys)) [
      | inl done ↦
          rw (find_and_attach, done)
            (mounted_first sys _ (attach_detected-Leaves sys 1 (omega arith)))
      | inr (x, failed) ↦
          rw (find_and_attach, failed) (inl (mount_cgroup2-error sys x failed, λ o. refl))
    ]

-- However a run fails before its loop, it leaves nothing open: the objects are closed, and the
-- link if there was one. Once the loop is reached, one link was attached, at a path that
-- /proc/mounts gave for cgroup2 at the first look or at the second, and at the end the objects and
-- the link are closed, but the reader of the events is still open.
pub run-released :
    (sys : System) (custom_btf_file_path : String)
    → let (steps, e) = run sys custom_btf_file_path in
      ((e ≢ loop_ended) × (open_after steps nothing ≡ nothing))
      ⊎ ((e ≡ loop_ended)
          × (open_after steps nothing ≡ record nothing { readers = 1 })
          × (path : String) × (attached steps ≡ path ∷ [])
          × IsMounted sys path)
unfolding run open_after attached
run-released sys btf = elim (Bool-cases sys.remove_memlock) [
  | inr refused ↦ rw refused (inl (λ x. cc, refl))
  | inl allowed ↦ elim (Bool-cases (not (btf == "") && not (sys.load_spec btf))) [
    | inl bad ↦ rw (allowed, bad) (inl (λ x. cc, refl))
    | inr good ↦ elim (Bool-cases sys.load_objects) [
      | inr refused ↦ rw (allowed, good, refused) (inl (λ x. cc, refl))
      | inl loaded ↦
          simp (allowed, good, loaded)
            (closed (find_and_attach sys (detect (sys.mounts 0))) (find_and_attach-Leaves sys))
    ]
  ]
]
  where
    closed :
        (r : Run)
        → Leaves sys r
        → let (steps, e) = after objects_loaded (deferred objects_closed r) in
          ((e ≢ loop_ended) × (open_after steps nothing ≡ nothing))
          ⊎ ((e ≡ loop_ended)
              × (open_after steps nothing ≡ record nothing { readers = 1 })
              × (path : String) × (attached steps ≡ path ∷ [])
              × IsMounted sys path)
    closed (steps, e) (inl (failed, same)) =
        inl (failed, open_after-append steps (objects_closed ∷ []) _ ∙ rw (same _) refl)
    closed (steps, e) (inr (ended, one, path, at, mounted)) = inr (
      ended,
      open_after-append steps (objects_closed ∷ []) _ ∙ rw (one _) refl,
      path,
      attached-append steps (objects_closed ∷ []) ∙ rw at refl,
      mounted,
    )
