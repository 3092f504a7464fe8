-- ===== src/Examples/Host.antt =====
-- The theorems on the host's handler applied at a concrete request.
use warpline.Base.{◌≡◌, ◌⊎◌, true, false, [], some, ok, bytes_eq, pair_eq}
use warpline.Base.Text.{codes}
use warpline.Types.Names.{valid_name}
use warpline.Examples.Registry.{acme, hello, toy, works}
use warpline.Examples.Runtime.{permits, lru, idle, echo}
use warpline.Examples.Pg.{keys, at_second}
use warpline.Examples.Control.{header, keyed_tables}
use warpline.Pg.Auth.{new_authenticator, select_key}
use warpline.Front.{authenticate_request}
use warpline.Host.{HostState, invoke_handler}
use warpline.Host.Answers.{Denied, Authorises, invoke_handler-Authorises}

abbrev host : HostState toy lru permits keys
host = record { runtime = idle; auth = some (new_authenticator keys toy.digest 0); counted = [] }

invoke_handler-Authorises_example :
    let r =
      invoke_handler toy lru permits keys works echo 5 host
        (at_second 10)
        (ok (select_key keyed_tables (toy.digest (codes "old"))))
        acme
        hello
        header in
    (((valid_name acme ≡ false) ⊎ (valid_name hello ≡ false))
      × Denied toy lru permits keys 400 host r)
    ⊎ ((valid_name acme ≡ true)
        × (valid_name hello ≡ true)
        × Authorises toy lru permits keys works echo 5 host acme hello
            (authenticate_request keys toy.digest host.auth
              (at_second 10)
              (ok (select_key keyed_tables (toy.digest (codes "old"))))
              acme
              header)
            r)
invoke_handler-Authorises_example =
    invoke_handler-Authorises toy lru permits keys works echo 5 host (at_second 10)
      (ok (select_key keyed_tables (toy.digest (codes "old")))) acme hello header
