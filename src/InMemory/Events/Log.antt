-- ===== src/InMemory/Events/Log.antt =====
-- What the methods on events write.
use claudeagentsdk_cloudrun.Prelude.{◌≡◌, List, [], ◌∷◌, ◌++◌, map, append-nil, append_assoc}
use claudeagentsdk_cloudrun.Exec.{ok}
use claudeagentsdk_cloudrun.Models.Records.{ChatEvent}
use claudeagentsdk_cloudrun.InMemory.State.{Store, Callback, event_to}
use claudeagentsdk_cloudrun.InMemory.Events.{notify}

-- Every subscriber is called once, in the order of subscription, and nothing else is written.
pub notify_lem :
    (callbacks : List Callback) (event : ChatEvent) (s : Store)
    → notify callbacks event s
      ≡ (ok tt, record s { delivered = s.delivered ++ map (λ c. event_to c event) callbacks })
unfolding notify
notify_lem [] event s = rw append-nil
notify_lem (c ∷ cs) event s = rw (notify_lem cs event, append_assoc)
