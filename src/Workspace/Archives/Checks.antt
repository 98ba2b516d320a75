-- ===== src/Workspace/Archives/Checks.antt =====
-- What the checks on an archive let through.
use claudeagentsdk_cloudrun.Prelude.{
  ℕ, ◌≤◌, String, true, false, not, ◌&&◌, ◌||◌, ◌≡◌, refl, arith, inl, inr, List, [], ◌∷◌,
  string_eq, ltb, All, Bool-cases, subst,
}
use claudeagentsdk_cloudrun.Exec.{ok, Result-cases}
use claudeagentsdk_cloudrun.Fakes.Objects.{Bytes}
use claudeagentsdk_cloudrun.Workspace.Archives.{
  Member, FoundPath, FileSystem, Directories, parts, leaves, is_device, is_link, validate_member,
  has_known_root, validate_members, stays, check_found, file_bytes, extract_snapshot,
}

-- A member that stays below one of the two roots, is no device or pipe, and whose link stays too.
pub record IsSafe (member : Member) : Type 0 where
  pub name_stays : leaves member.name ≡ false
  pub no_device : is_device member.kind ≡ false
  pub link_stays : is_link member.kind ≡ true → leaves member.linkname ≡ false
  pub known_root : has_known_root (parts member.name) ≡ true

-- An extracted path that is no link and no pipe, and lies below its root.
pub record IsInside (path : FoundPath) : Type 0 where
  pub no_link : path.is_symlink ≡ false
  pub below : stays path ≡ true
  pub no_pipe : (path.exists && path.is_fifo) ≡ false

validate_member-IsSafe :
    (member : Member) (path : List String)
    → validate_member member ≡ ok path
    → has_known_root path ≡ true
    → IsSafe member
unfolding validate_member
validate_member-IsSafe member path accepted root =
    elim (Bool-cases (leaves member.name || is_device member.kind)) [
      | inl unsafe ↦ cc (rw unsafe at accepted)
      | inr fine ↦ elim (Bool-cases (is_link member.kind && leaves member.linkname)) [
        | inl unsafe ↦ cc (rw (fine, unsafe) at accepted)
        | inr stays_too ↦
            let same : parts member.name ≡ path = cc (rw (fine, stays_too) at accepted) in
            record {
              name_stays = ground (arith, fine);
              no_device = ground (arith, fine);
              link_stays = λ link. ground (arith, stays_too, link);
              known_root = rw same root;
            }
      ]
    ]

pub validate_members-IsSafe :
    (members : List Member) → validate_members members ≡ ok tt → All IsSafe members
unfolding validate_members
validate_members-IsSafe [] accepted = tt
validate_members-IsSafe (member ∷ rest) accepted = elim (Result-cases (validate_member member)) [
  | inr (e, refused) ↦ cc (rw refused at accepted)
  | inl (path, fine) ↦ elim (Bool-cases (has_known_root path)) [
    | inr other ↦ cc (rw (fine, other) at accepted)
    | inl root ↦ (
      validate_member-IsSafe member path fine root,
      validate_members-IsSafe rest (rw (fine, root) at accepted),
    )
  ]
]

pub check_found-IsInside : (paths : List FoundPath) → check_found paths ≡ ok tt → All IsInside paths
unfolding check_found
check_found-IsInside [] accepted = tt
check_found-IsInside (path ∷ rest) accepted =
    elim (Bool-cases (path.is_symlink || not (stays path))) [
      | inl outside ↦ cc (rw outside at accepted)
      | inr within ↦ elim (Bool-cases (path.exists && path.is_fifo)) [
        | inl pipe ↦ cc (rw (within, pipe) at accepted)
        | inr plain ↦ (
          record {
            no_link = ground (arith, within);
            below = ground (arith, within);
            no_pipe = plain;
          },
          check_found-IsInside rest (rw (within, plain) at accepted),
        )
      ]
    ]

-- The checks let through every archive of safe members, and every tree of inside paths.
validate_member-of_safe :
    (member : Member) → IsSafe member → validate_member member ≡ ok (parts member.name)
unfolding validate_member
validate_member-of_safe member safe = elim (Bool-cases (is_link member.kind)) [
  | inl link ↦ rw (safe.name_stays, safe.no_device, link, safe.link_stays link) refl
  | inr other ↦ rw (safe.name_stays, safe.no_device, other) refl
]

pub validate_members-of_safe :
    (members : List Member) → All IsSafe members → validate_members members ≡ ok tt
unfolding validate_members
validate_members-of_safe [] safe = refl
validate_members-of_safe (member ∷ rest) (safe, later) =
    rw (validate_member-of_safe member safe, safe.known_root, validate_members-of_safe rest later)
      refl

pub check_found-of_inside :
    (paths : List FoundPath) → All IsInside paths → check_found paths ≡ ok tt
unfolding check_found
check_found-of_inside [] inside = refl
check_found-of_inside (path ∷ rest) (inside, later) =
    rw (inside.below, inside.no_pipe, inside.no_link, check_found-of_inside rest later) refl

module _ {W : Type 0} (files : FileSystem W) (bytes : Bytes) (max_bytes : ℕ) where
  -- What is known of an archive that was extracted, by what the two roots held before and hold now.
  pub record IsExtracted (before after : W) : Type 0 where
    pub members : List Member
    pub listed : files.members bytes ≡ ok members
    pub small : file_bytes members ≤ max_bytes
    pub safe : All IsSafe members
    pub extracted : files.extract members bytes before ≡ (ok tt, after)
    pub inside : All IsInside (files.found after)

  pub extract_snapshot-IsExtracted :
      (d : Directories W)
      → (extract_snapshot files bytes max_bytes d).0 ≡ ok tt
      → IsExtracted d.content (extract_snapshot files bytes max_bytes d).1.content
  unfolding extract_snapshot
  extract_snapshot-IsExtracted d done = elim (Result-cases (files.members bytes)) [
    | inr (e, broken) ↦ cc (rw broken at done)
    | inl (members, listed) ↦ elim (Bool-cases (ltb max_bytes (file_bytes members))) [
      | inl large ↦ cc (rw (listed, large) at done)
      | inr small ↦ elim (Result-cases (validate_members members)) [
        | inr (e, refused) ↦ cc (rw (listed, small, refused) at done)
        | inl (_, fine) ↦ elim (Result-cases (files.extract members bytes d.content).0) [
          | inr (e, failed) ↦ cc (rw (listed, small, fine, failed) at done)
          | inl (_, made) ↦
              let w = (files.extract members bytes d.content).1 in
              elim (Result-cases (check_found (files.found w))) [
                | inr (e, outside) ↦ cc (rw (listed, small, fine, made, outside) at done)
                | inl (_, within) ↦
                    subst (λ after. IsExtracted d.content after)
                      (rw (listed, small, fine, made) refl)
                      (record {
                        members = members;
                        listed = listed;
                        small = ground (arith, small);
                        safe = validate_members-IsSafe members fine;
                        extracted = λ i. (made i, w);
                        inside = check_found-IsInside (files.found w) within;
                      })
              ]
        ]
      ]
    ]
  ]
