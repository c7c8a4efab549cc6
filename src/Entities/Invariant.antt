-- ===== src/Entities/Invariant.antt =====
-- What holds of the authority file after any sequence of changes (backend/app/entities/authority.py).
use newsintel.Entities.Store.{Store}
