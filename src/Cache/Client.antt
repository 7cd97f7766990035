-- ===== src/Cache/Client.antt =====
-- internal/cache/redis.go: the client, over the Redis driver.
use cache_proxyfy.Prelude.{
  ℕ, Bytes, codes, Bool, Option, Result, ok, err, ◌++◌, ◌∷◌, eqb, if◌then◌else◌,
}
use cache_proxyfy.Db.Schema.{PackageKey}
use cache_proxyfy.Cache.Redis.{Redis, Reply, value, nil, failed}

pub data CacheError : Type 0 where
  cache_miss get_failed set_failed delete_failed ping_failed : CacheError

-- Format: "cpf:<ecosystem>:<name>:<version>"
unfoldable pub key : PackageKey → Bytes
key k = codes "cpf:" ++ (k.ecosystem ++ b':' ∷ (k.name ++ b':' ∷ k.version))

-- 24 hours, in nanoseconds.
abbrev pub default_ttl : ℕ
default_ttl = 86400000000000

module _ (redis : Redis) where
  open redis use {Conn}

  pub record Client : Type 0 where
    pub conn : Conn
    pub ttl : ℕ

abbrev on_reply : Reply → Result CacheError Bytes
on_reply (value v) = ok v
on_reply nil = err cache_miss
on_reply failed = err get_failed

abbrev on_done : CacheError → Bool → Result CacheError Unit
on_done e done = if done then ok tt else err e

module _ (redis : Redis) where
  open redis use {Conn}

  -- The connection is refused if the server does not answer a ping.
  unfoldable pub new : Conn → ℕ → Result CacheError (Client redis)
  new conn ttl =
      let (up, conn') = redis.ping conn in
      if up
      then ok (record { conn = conn'; ttl = if eqb ttl 0 then default_ttl else ttl })
      else err ping_failed

  unfoldable pub get : Client redis → PackageKey → Result CacheError Bytes × Client redis
  get c k =
      let (reply, conn') = redis.get c.conn (key k) in (on_reply reply, record c { conn = conn' })

  unfoldable pub set : Client redis → PackageKey → Bytes → Result CacheError Unit × Client redis
  set c k checksum =
      let (done, conn') = redis.set c.conn (key k) checksum c.ttl in
      (on_done set_failed done, record c { conn = conn' })

  unfoldable pub delete : Client redis → PackageKey → Result CacheError Unit × Client redis
  delete c k =
      let (done, conn') = redis.del c.conn (key k) in
      (on_done delete_failed done, record c { conn = conn' })

  unfoldable pub ping : Client redis → Result CacheError Unit × Client redis
  ping c =
      let (up, conn') = redis.ping c.conn in (on_done ping_failed up, record c { conn = conn' })

  -- What the cache would give for a package.
  abbrev pub cached : Client redis → PackageKey → Option Bytes
  cached c k = redis.stored c.conn (key k)
