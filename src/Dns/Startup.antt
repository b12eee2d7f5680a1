-- ===== src/Dns/Startup.antt =====
-- ebpf/tracer_linux.go: `Run` before and after its loop, `InitCgroupv2`, `detectCgroupPath` at
-- /proc/mounts, and `mountCgroup2` of cgroup_linux.go. What the system and github.com/cilium/ebpf
-- answer is a parameter. The loop itself, which ends with an error or with the context, is that of
-- Tracer.
use egressd.Prelude.{
  ℕ, Bool, not, ◌&&◌, Option, none, some, List, [], ◌∷◌, ◌++◌, String, if◌then◌else◌, ◌==◌,
  nat_comparable, string_comparable,
}
use egressd.Dns.Tracer.{detect_cgroup_path}

-- Whether a call succeeds. `mounts` are the lines of /proc/mounts, each split at its blanks, at the
-- first and at the second time; `none`: the file cannot be opened.
pub record System : Type 0 where
  pub remove_memlock : Bool
  pub load_spec : String → Bool
  pub load_objects : Bool
  pub mounts : ℕ → Option (List (List String))
  pub mkdir : Bool
  pub mount : Bool
  pub attach_cgroup : String → Bool
  pub new_reader : Bool

pub data RunError : Type 0 where
  no_memlock no_spec no_objects mounts_not_opened cgroup2_not_mounted : RunError
  not_created mount_failed not_attached no_reader loop_ended : RunError

-- What a run acquires and lets go, in time.
pub data Step : Type 0 where
  objects_loaded objects_closed cgroup2_mounted reader_opened link_closed : Step
  link_attached : String → Step

abbrev pub Run : Type 0
Run = List Step × RunError

abbrev pub fails : RunError → Run
fails e = ([], e)

abbrev pub after : Step → Run → Run
after step (steps, e) = (step ∷ steps, e)

-- A deferred call comes last.
abbrev pub deferred : Step → Run → Run
deferred step (steps, e) = (steps ++ step ∷ [], e)

pub data Detected : Type 0 where
  found : String → Detected
  not_mounted not_opened : Detected

unfoldable pub detect : Option (List (List String)) → Detected
detect none = not_opened
detect (some lines) = elim (detect_cgroup_path lines) [
  | none ↦ not_mounted
  | some path ↦ found path
]

-- `mountCgroup2`.
unfoldable pub mount_cgroup2 : System → Option RunError
mount_cgroup2 sys =
    if not sys.mkdir then some not_created else if not sys.mount then some mount_failed else none

-- `InitCgroupv2`, with the steps that it takes; that /proc/mounts cannot be opened is no error.
unfoldable pub init_cgroupv2 : System → List Step × Option RunError
init_cgroupv2 sys = elim (detect (sys.mounts 0)) [
  | found path ↦ ([], none)
  | not_opened ↦ ([], none)
  | not_mounted ↦ elim (mount_cgroup2 sys) [
    | some e ↦ ([], some e)
    | none ↦ (cgroup2_mounted ∷ [], none)
  ]
]

unfoldable pub attach : System → String → Run
attach sys path =
    if not (sys.attach_cgroup path)
    then fails not_attached
    else after (link_attached path) (
        deferred link_closed
          (if not sys.new_reader then fails no_reader else after reader_opened (fails loop_ended)))

unfoldable pub attach_detected : System → Detected → Run
attach_detected sys (found path) = attach sys path
attach_detected sys not_mounted = fails cgroup2_not_mounted
attach_detected sys not_opened = fails mounts_not_opened

-- The search for the path, with a second one after a mount.
unfoldable pub find_and_attach : System → Detected → Run
find_and_attach sys (found path) = attach sys path
find_and_attach sys not_opened = fails mounts_not_opened
find_and_attach sys not_mounted = elim (mount_cgroup2 sys) [
  | some e ↦ fails e
  | none ↦ after cgroup2_mounted (attach_detected sys (detect (sys.mounts 1)))
]

-- `Run`, with the path of a custom BTF file.
unfoldable pub run : System → (custom_btf_file_path : String) → Run
run sys custom_btf_file_path =
    if not sys.remove_memlock
    then fails no_memlock
    else if not (custom_btf_file_path == "") && not (sys.load_spec custom_btf_file_path)
    then fails no_spec
    else if not sys.load_objects
    then fails no_objects
    else after objects_loaded
        (deferred objects_closed (find_and_attach sys (detect (sys.mounts 0))))
