-- ===== src/Samples/Hosts.antt =====
-- Sessions.
use omega_services.Prelude.{List, [], ◌∷◌, codes}
use omega_services.Sessions.{SessionExempt, SessionsList}

abbrev no_sessions : SessionsList
no_sessions i = []

abbrev exempts : List SessionExempt
exempts = record { age = 1; host = codes "*.example"; count = 10 } ∷ []
