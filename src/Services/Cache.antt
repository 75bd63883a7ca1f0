-- ===== src/Services/Cache.antt =====
-- app/services/cache.py: `ResponseCache`, without `invalidate` and `stats`, which scan the server's keys.
-- The digest of the JSON text of a query and the JSON text of a response are parameters.
use ultimate_assistant_ai_ga.Base.{ℕ, ◌*◌, String, Option, none, some, List, ◌≡◌}
use ultimate_assistant_ai_ga.Schemas.{Message}
use ultimate_assistant_ai_ga.Core.Security.{second}
use ultimate_assistant_ai_ga.Redis.{Redis, Key, cache, Value, text}

-- the object whose digest is the key
pub record CacheQuery : Type 0 where
  pub user_id : String
  pub provider : String
  pub model : String
  pub messages : List Message
  pub temperature : ℕ

-- the object that the chat service stores
pub record CachedResponse : Type 0 where
  pub conversation_id : String
  pub content : String
  pub model : Option String
  pub provider : Option String
  pub input_tokens : Option ℕ
  pub output_tokens : Option ℕ
  pub estimated_cost_usd : Option ℕ

pub record CacheCodec : Type 0 where
  pub sha256 : CacheQuery → String
  pub dumps : CachedResponse → String
  -- nothing where `orjson.loads` raises
  pub loads : String → Option CachedResponse

-- different queries have different digests, and a response reads back
pub record CacheCodecLaws (c : CacheCodec) : Type 0 where
  pub sha256-injective : {p q : CacheQuery} → c.sha256 p ≡ c.sha256 q → p ≡ q
  pub loads-dumps : (r : CachedResponse) → c.loads (c.dumps r) ≡ some r

-- one hour
abbrev pub cache_ttl : ℕ
cache_ttl = 3600 * second

module _ {Store : Type 0} (server : Redis Store) (codec : CacheCodec) where
  abbrev pub cache_key : CacheQuery → Key
  cache_key q = cache (codec.sha256 q)

  -- only texts are stored under these keys
  abbrev loaded : Option Value → Option CachedResponse
  loaded none = none
  loaded (some (text s)) = codec.loads s
  loaded (some (Value.number n)) = none

  unfoldable pub get : ℕ → CacheQuery → Store → Option CachedResponse
  get now q s = loaded (server.get now (cache_key q) s)

  unfoldable pub set : ℕ → CacheQuery → CachedResponse → Store → Store
  set now q response s = server.setex now (cache_key q) cache_ttl (text (codec.dumps response)) s
