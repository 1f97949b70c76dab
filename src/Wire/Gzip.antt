-- ===== src/Wire/Gzip.antt =====
-- What the client relies on of Python's `gzip` module.
use hurricache_python_client.Base.{ℕ, ◌≡◌, some, take}
use hurricache_python_client.Models.{Bytes}
use hurricache_python_client.Effects.{Env}

-- Decompressing what was compressed gives its bytes back, as many as are asked for.
pub record GzipLaws (env : Env) : Type 0 where
  pub read-compress :
      (content : Bytes) (n : ℕ) → env.gunzip (env.gzip content) n ≡ some (take n content)
