-- ===== src/Workspace/Archives.antt =====
-- workspace_store.py: the checks on archives. The file system, tarfile and gzip are not part of the
-- repository: `FileSystem W` gives what the code asks of them, where W is what a workspace and a
-- Claude session directory hold.
pub mod Checks
use Prim.Native.Char.{code}
use Prim.Native.String.{◌++◌ as str_append}
use claudeagentsdk_cloudrun.Prelude.{
  ℕ, ◌+◌, String, Bool, true, false, not, ◌&&◌, ◌||◌, List, [], ◌∷◌, Option, none, some, nat_beq,
  string_eq, ltb, any, length, if◌then◌else◌,
}
use claudeagentsdk_cloudrun.Errors.{Error, error, workspace_corrupted, workspace_too_large}
use claudeagentsdk_cloudrun.Exec.{
  Exec, Result, ok, err, pure, raise, lift, gets, modify, guard, ◌>>=◌, ◌>>◌,
}
use claudeagentsdk_cloudrun.Text.Search.{is_in, begins}
use claudeagentsdk_cloudrun.Fakes.Objects.{Bytes}

pub data MemberKind : Type 0 where
  regular directory device fifo symlink hardlink : MemberKind

pub record Member : Type 0 where
  pub name : String
  pub kind : MemberKind
  pub linkname : String
  pub size : ℕ

-- A path below one of the two roots after the extraction.
pub record FoundPath : Type 0 where
  pub root : String
  pub is_symlink : Bool
  pub real_path : String
  pub exists : Bool
  pub is_fifo : Bool

-- How write_bytes ends: an error may leave a part of the bytes in the file.
pub data Written : Type 0 where
  complete : Written
  failed : Error → Option Bytes → Written

pub record FileSystem (W : Type 0) : Type 0 where
  -- the sizes of all files below the two roots, and the bytes that tarfile writes for them
  pub sizes : W → List ℕ
  pub pack : W → Bytes
  -- tarfile.open and getmembers
  pub members : Bytes → Result (List Member)
  -- extractall with the filter "data"
  pub extract : List Member → Bytes → Exec W (Unit {0})
  -- write_bytes of the downloaded archive
  pub write : Bytes → W → Written
  -- rglob below the workspace and below the session directory
  pub found : W → List FoundPath

-- RequestDirectories, with the two files that the code makes beside the roots.
pub record Directories (W : Type 0) : Type 0 where
  pub content : W
  pub snapshot_file : Option Bytes
  pub download_file : Option Bytes

-- The parts of a path between its slashes, without the empty ones and ".".
part_of : String → List String
part_of part = if string_eq.beq part "" || string_eq.beq part "." then [] else part ∷ []

join : List String → List String → List String
join [] later = later
join (p ∷ ps) later = p ∷ later

unfoldable pub parts_from : String → String → List String
unfolding part_of join
parts_from current String.[] = part_of current
parts_from current (String.◌∷◌ c s) =
    let closed = join (part_of current) (parts_from "" s) in
    let longer = parts_from (str_append current (String.◌∷◌ c "")) s in
    if nat_beq (code c) b'/' then closed else longer

-- PurePosixPath(name).parts of a path that is not absolute, and is_absolute
unfoldable pub parts : String → List String
unfolding parts_from
parts name = parts_from "" name

unfoldable pub is_absolute : String → Bool
unfolding begins
is_absolute name = begins name "/"

-- path.is_absolute() or ".." in path.parts
unfoldable pub leaves : String → Bool
unfolding parts is_absolute
leaves name = is_absolute name || is_in (parts name) ".."

abbrev pub is_device : MemberKind → Bool
is_device MemberKind.device = true
is_device MemberKind.fifo = true
is_device _ = false

abbrev pub is_link : MemberKind → Bool
is_link MemberKind.symlink = true
is_link MemberKind.hardlink = true
is_link _ = false

unfoldable pub validate_member : Member → Result (List String)
unfolding leaves parts
validate_member member =
    if leaves member.name || is_device member.kind
    then err (error workspace_corrupted "unsafe archive member")
    else if is_link member.kind && leaves member.linkname
    then err (error workspace_corrupted "unsafe archive link")
    else ok (parts member.name)

-- member_path.parts and member_path.parts[0] in {"workspace", "claude-session"}
abbrev pub has_known_root : List String → Bool
has_known_root [] = false
has_known_root (root ∷ rest) = is_in ("workspace" ∷ "claude-session" ∷ []) root

abbrev check_root : Result (List String) → Result (Unit {0}) → Result (Unit {0})
check_root (err e) later = err e
check_root (ok path) later =
    if has_known_root path then later else err (error workspace_corrupted "unexpected archive root")

-- The loop over the members before the extraction.
unfoldable pub validate_members : List Member → Result (Unit {0})
validate_members [] = ok tt
validate_members (member ∷ rest) = check_root (validate_member member) (validate_members rest)

-- os.path.realpath(path).startswith(f"{root}{os.sep}")
unfoldable pub stays : FoundPath → Bool
unfolding begins
stays path = begins path.real_path (str_append path.root "/")

-- The loop over what was extracted.
unfoldable pub check_found : List FoundPath → Result (Unit {0})
check_found [] = ok tt
check_found (path ∷ rest) =
    let later = check_found rest in
    if path.is_symlink || not (stays path)
    then err (error workspace_corrupted "extracted path escapes root")
    else if path.exists && path.is_fifo
    then err (error workspace_corrupted "FIFO is not allowed")
    else later

abbrev pub total : List ℕ → ℕ
total [] = 0
total (n ∷ ns) = n + total ns

-- sum(member.size for member in members if member.isfile())
abbrev pub file_bytes : List Member → ℕ
file_bytes [] = 0
file_bytes (member ∷ rest) =
    (elim member.kind [ MemberKind.regular ↦ member.size | _ ↦ 0 ]) + file_bytes rest

module _ {W : Type 0} (files : FileSystem W) where
  unfoldable pub archive_snapshot : ℕ → Exec (Directories W) (ℕ × ℕ)
  archive_snapshot max_bytes = do
    uncompressed ← gets (λ d. total (files.sizes d.content))
    guard (not (ltb max_bytes uncompressed))
        (error workspace_too_large "uncompressed snapshot is too large")
    archive ← gets (λ d. files.pack d.content)
    modify (λ d. record d { snapshot_file = some archive })
    if ltb max_bytes (length archive)
        then (do
          modify (λ d. record d { snapshot_file = none })
          raise (error workspace_too_large "compressed snapshot is too large"))
        else pure (uncompressed, length archive)

  -- An action on what the two roots hold.
  abbrev on_content : {A : Type 0} → Exec W A → Exec (Directories W) A
  on_content action d = let (r, w) = action d.content in (r, record d { content = w })

  unfoldable pub extract_snapshot : Bytes → ℕ → Exec (Directories W) (Unit {0})
  extract_snapshot archive max_bytes = do
    members ← lift (files.members archive)
    guard (not (ltb max_bytes (file_bytes members)))
        (error workspace_too_large "uncompressed snapshot is too large")
    lift (validate_members members)
    on_content (files.extract members archive)
    found ← gets (λ d. files.found d.content)
    lift (check_found found)
