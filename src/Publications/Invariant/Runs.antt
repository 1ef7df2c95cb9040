-- ===== src/Publications/Invariant/Runs.antt =====
-- Each run of changes keeps what holds between services, and ends no attempt twice.
use fire_dash_server.Publications.Store.{PublicationDb}
use fire_dash_server.Publications.Changes.{Change, quiet, added, queued, activated, Run, here, next}
use fire_dash_server.Publications.Invariant.{IsSound, Quiet-IsSound, Queued-IsSound}
use fire_dash_server.Publications.Invariant.Versions.{Added-IsSound}
use fire_dash_server.Publications.Invariant.Activation.{Activated-IsSound}

pub Change-IsSound : (t u : PublicationDb) → Change t u → IsSound t → IsSound u
Change-IsSound t u (quiet q) i = Quiet-IsSound i q
Change-IsSound t u (added p a) i = Added-IsSound i p a
Change-IsSound t u (queued j q) i = Queued-IsSound i j q
Change-IsSound t u (activated s p a) i = Activated-IsSound i s p a

pub Run-IsSound : (t u : PublicationDb) → Run t u → IsSound t → IsSound u
Run-IsSound t u here i = i
Run-IsSound t u (next r c) i = Change-IsSound _ u c (Run-IsSound t _ r i)
