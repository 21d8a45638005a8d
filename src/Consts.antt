-- ===== src/Consts.antt =====
-- trinci-core-new/src/consts.rs: the limit on the attempts of a request.
use trinci.Base.{ℕ}

abbrev pub max_req_attempts : ℕ
max_req_attempts = 5
