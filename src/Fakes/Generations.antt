-- ===== src/Fakes/Generations.antt =====
-- Conditional writes: of two uploads that expect the same generation, one is made; a lock is held
-- by one run at a time.
use claudeagentsdk_cloudrun.Prelude.{
  ℕ, suc, ◌+◌, ◌≤◌, String, ◌≡◌, ◌≢◌, refl, true, false, none, some, arith, nat_eq, string_eq,
  nat_beq, Bool-cases, Option-cases, inl, inr, if◌then◌else◌,
}
use claudeagentsdk_cloudrun.Errors.{error, file_exists, file_not_found}
use claudeagentsdk_cloudrun.Exec.{ok, err}
use claudeagentsdk_cloudrun.Dict.{get, put, get-put, get-put_self, get-remove}
use claudeagentsdk_cloudrun.Models.Records.{Uuid}
use claudeagentsdk_cloudrun.Fakes.Objects.{
  Bytes, Snapshots, matches, mismatch, upload, download, RunLocks, acquire, release,
}

-- Every generation that was given out is below the next.
abbrev pub IsFresh : Snapshots → Type 0
IsFresh s =
    (path : String) (generation : ℕ) (bytes : Bytes)
    → get s.objects path ≡ some (generation, bytes)
    → suc generation ≤ s.next_generation

abbrev pub uploaded : String → Bytes → Snapshots → Snapshots
uploaded path bytes s = record s {
  next_generation = s.next_generation + 1;
  objects = put s.objects path (s.next_generation, bytes);
}

module _ (path : String) (bytes : Bytes) (wanted : ℕ) (s : Snapshots) where
  upload-made :
      matches (get s.objects path) wanted ≡ true
      → upload path bytes wanted s ≡ (ok s.next_generation, uploaded path bytes s)
  unfolding upload
  upload-made fits = rw fits refl

  upload-refused :
      matches (get s.objects path) wanted ≡ false
      → upload path bytes wanted s ≡ (err (mismatch wanted path), s)
  unfolding upload
  upload-refused fails = rw fails refl

  uploaded-IsFresh : IsFresh s → IsFresh (uploaded path bytes s)
  uploaded-IsFresh fresh other generation bytes' found = ground (
    arith,
    get-put s.objects path other (s.next_generation, bytes),
    fresh other generation bytes',
  )

stale :
    (path : String) (wanted : ℕ) (bytes : Bytes) (s : Snapshots)
    → IsFresh s
    → matches (get s.objects path) wanted ≡ true
    → matches (some (s.next_generation, bytes)) wanted ≡ false
unfolding matches
stale path wanted bytes s fresh fits = elim (Option-cases (get s.objects path)) [
  | inl none_there ↦ ground (arith, none_there)
  | inr ((generation, old), there) ↦
      let below = fresh path generation old there in ground (arith, there, below)
]

-- Where the generations of all objects are below the next one, of two uploads to the same path
-- that expect the same generation the second is refused and changes nothing, once the first was
-- made. The first can be read back under its own generation, which is above that of every object
-- before, and the generations of all objects are again below the next one.
pub upload_once :
    (path : String) (bytes bytes' : Bytes) (wanted generation : ℕ) (s : Snapshots)
    → IsFresh s
    → (upload path bytes wanted s).0 ≡ ok generation
    → let t = uploaded path bytes s in
      (upload path bytes wanted s ≡ (ok generation, t))
      × (upload path bytes' wanted t ≡ (err (mismatch wanted path), t))
      × (download path generation t ≡ (ok bytes, t))
      × ((other : String) (old : ℕ) (b : Bytes)
          → get s.objects other ≡ some (old, b)
          → suc old ≤ generation)
      × IsFresh t
unfolding download
upload_once path bytes bytes' wanted generation s fresh made =
    elim (Bool-cases (matches (get s.objects path) wanted)) [
      | inr fails ↦ cc (rw (upload-refused path bytes wanted s fails) at made)
      | inl fits ↦
          let done = upload-made path bytes wanted s fits in
          let same : s.next_generation ≡ generation = cc (rw done at made) in
          let new = get-put_self s.objects path (s.next_generation, bytes) in
          (
            rw (done, same) refl,
            upload-refused path bytes' wanted (uploaded path bytes s)
                (rw new (stale path wanted bytes s fresh fits)),
            rw (new, (nat_eq.beq_iff s.next_generation generation).1 same) refl,
            λ other old b there. rw (← same) (fresh other old b there),
            uploaded-IsFresh path bytes wanted s fresh,
          )
    ]

abbrev pub locked : String → Uuid → RunLocks → RunLocks
locked session_id run_id s = record s {
  next_generation = s.next_generation + 1;
  locks = put s.locks session_id (s.next_generation, run_id);
}

-- The lock of a session is given to one run at a time: while it is held every attempt is refused,
-- and so is a release with another generation than the holder's; neither changes anything. The
-- holder's own release frees this session's lock and no other.
pub lock_exclusive :
    (session_id : String) (run_id other_run : Uuid) (generation other_generation : ℕ) (s : RunLocks)
    → (acquire session_id run_id s).0 ≡ ok generation
    → other_generation ≢ generation
    → let t = locked session_id run_id s in
      (acquire session_id run_id s ≡ (ok generation, t))
      × (acquire session_id other_run t ≡ (err (error file_exists session_id), t))
      × (release session_id other_generation t ≡ (err (error file_not_found session_id), t))
      × ((release session_id generation t).0 ≡ ok tt)
      × ((k : String)
          → get (release session_id generation t).1.locks k
            ≡ (if string_eq.beq session_id k then none else get s.locks k))
unfolding acquire release
lock_exclusive session_id run_id other_run generation other_generation s made differ =
    elim (Option-cases (get s.locks session_id)) [
      | inr (held, there) ↦ cc (rw there at made)
      | inl free ↦
          let same : s.next_generation ≡ generation = cc (rw free at made) in
          let new = get-put_self s.locks session_id (s.next_generation, run_id) in
          let own = (nat_eq.beq_iff s.next_generation generation).1 same in
          let other : nat_beq s.next_generation other_generation ≡ false =
            ground (arith, nat_eq.beq_iff s.next_generation other_generation) in
          (
            rw (free, same) refl,
            rw new refl,
            rw (new, other) refl,
            rw (new, own) refl,
            λ k.
                rw (new, own)
                  (ground (
                    arith,
                    get-remove (put s.locks session_id (s.next_generation, run_id)) session_id k,
                    get-put s.locks session_id k (s.next_generation, run_id),
                  )),
          )
    ]
