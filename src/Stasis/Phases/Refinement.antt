-- ===== src/Stasis/Phases/Refinement.antt =====
-- app/ari/stasis.py: the application, seen from one call, does what the life of a call allows.
use number_masking_service.Stasis.Fine.{Fine}
use number_masking_service.Stasis.System.{System}
