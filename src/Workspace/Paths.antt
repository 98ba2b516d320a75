-- ===== src/Workspace/Paths.antt =====
-- workspace_store.py: opaque_id and StoragePaths. `sha256` stands for the hexadecimal digest of a
-- text's UTF-8 encoding, a function of the language's library.
use Prim.Native.String.{String, ◌++◌}
use claudeagentsdk_cloudrun.Models.Ids.{str}
use claudeagentsdk_cloudrun.Models.Records.{Uuid}

pub record StoragePaths : Type 0 where
  pub user_hash : String
  pub session_hash : String
  pub schema_version : String
  pub sdk_version : String

unfoldable pub for_session : (String → String) → String → String → String → String → StoragePaths
for_session sha256 user_id session_id schema_version sdk_version = record {
  user_hash = sha256 user_id;
  session_hash = sha256 session_id;
  schema_version = schema_version;
  sdk_version = sdk_version;
}

unfoldable pub prefix : StoragePaths → String
prefix p =
    "cas/v" ++ p.schema_version ++ "/sdk-" ++ p.sdk_version ++ "/users/" ++ p.user_hash
    ++ "/sessions/" ++ p.session_hash

unfoldable pub lock_path : StoragePaths → String
lock_path p =
    "locks/v" ++ p.schema_version ++ "/" ++ p.user_hash ++ "/" ++ p.session_hash ++ ".json"

unfoldable pub input_path : StoragePaths → Uuid → String
unfolding prefix
input_path p run_id = prefix p ++ "/runs/" ++ str run_id ++ "/input.json"

unfoldable pub output_path : StoragePaths → Uuid → String
unfolding prefix
output_path p run_id = prefix p ++ "/runs/" ++ str run_id ++ "/output.json"

unfoldable pub snapshot_path : StoragePaths → Uuid → String
unfolding prefix
snapshot_path p run_id = prefix p ++ "/snapshots/" ++ str run_id ++ "/snapshot.tar.gz"
