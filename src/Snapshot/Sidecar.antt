-- ===== src/Snapshot/Sidecar.antt =====
-- src/output.ts: `loadSidecar`, over what the file system answers. An answer that a throw takes the
-- place of is `none`.
use pi_watch.Base.{ℕ, Bool, not, ◌&&◌, ◌||◌, Option, none, some, List, ltb, ◌==◌, if◌then◌else◌}

-- What `inspectPrivateFile` returns, and what `fstat` does.
pub record FileSeen : Type 0 where
  pub size : ℕ
  pub dev : ℕ
  pub ino : ℕ

pub record Stat : Type 0 where
  pub is_file : Bool
  pub seen : FileSeen

pub data Lstat : Type 0 where
  present absent unknown_error : Lstat

-- What `loadSidecar` sees of one artifact.
pub record SidecarSeen : Type 0 where
  pub lstat : Lstat
  pub inspected : Option FileSeen
  pub opened : Option Stat
  pub bytes : Option (List ℕ)
  pub size_after : Option ℕ
  pub bound : Bool

-- `LoadedArtifact`
pub data LoadedArtifact : Type 0 where
  missing invalid read_failed : LoadedArtifact
  loaded : List ℕ → LoadedArtifact

abbrev pub same_file : FileSeen → FileSeen → Bool
same_file a b = (a.dev == b.dev) && (a.ino == b.ino)

abbrev bytes_loaded : Bool → ℕ → SidecarSeen → LoadedArtifact
bytes_loaded bound size seen = elim seen.bytes [
  | none ↦ read_failed
  | some bytes ↦ elim seen.size_after [
    | none ↦ read_failed
    | some after ↦ if not (after == size) || not bound then invalid else loaded bytes
  ]
]

unfoldable pub load_sidecar : ℕ → SidecarSeen → LoadedArtifact
load_sidecar limit seen = elim seen.lstat [
  | absent ↦ missing
  | unknown_error ↦ invalid
  | present ↦ elim seen.inspected [
    | none ↦ invalid
    | some file ↦ if ltb limit file.size then invalid else elim seen.opened [
      | none ↦ read_failed
      | some stat ↦
          if stat.is_file && same_file stat.seen file && (stat.seen.size == file.size)
          then bytes_loaded seen.bound stat.seen.size seen
          else invalid
    ]
  ]
]
