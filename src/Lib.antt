-- ===== src/Lib.antt =====
-- The gateway: one HTTP service in front of many AI providers. A request names a conversion, such
-- as text to image; the router looks the capable providers up, keeps those that the user has a
-- key for, and tries them in turn. Each call of a provider goes through a retry loop and a
-- circuit breaker; each request of a user first goes through a token bucket. Users register and
-- log in for tokens, which later requests show; a conversion that no provider serves alone runs as
-- a pipeline of routed hops.
--
-- Base          shared types and lemmas: texts, lists, dicts, integers, and Base/Action, the
--               coroutines of the program as state passing with exceptions as values
-- Exceptions    app/core/exceptions.py
-- Schemas       app/schemas/provider.py
-- Redis         the commands of the Redis server that the code calls, a parameter with the
--               documented laws; Redis/Memory is a server that keeps them
-- Core/RateLimit        app/core/ratelimit.py; Budget is about what a bucket lets through
-- Providers/Capabilities   app/providers/capabilities.py
-- Providers/Interface      app/providers/base.py
-- Providers/ClientPool     app/providers/client_pool.py
-- Providers/Registry       app/providers/registry.py; Capable compares the map with a comprehension
-- Providers/CircuitBreaker app/providers/retry.py, the breaker; Phase is the in-process backend as
--               a state machine, Shared the one over Redis
-- Providers/Retry          app/providers/retry.py, `with_retry`; Attempts is about its loop
-- Services/Router          app/services/router.py; Frame, Selection, Failover and Routing are about
--               what it leaves alone, whom it selects, its loop, and the whole of `route`
-- Services/Interfaces      what the services take from one another: the key store, the ranker and the
--               host (clock and metrics) of the router
-- Core/Security app/core/security.py; Strength is about passwords, Lockout about the counter of failed
--               logins
-- Api/World     what the handlers share: Redis, the users (app/models/user.py,
--               app/db/repositories/user_repo.py), and the libraries behind them
-- Api/Deps      app/api/v1/deps.py, the check of an access token
-- Api/Auth      app/api/v1/routes/auth.py; BruteForce, Revocation and Register are about runs of
--               several requests
-- Services/Pipeline     app/services/pipeline.py; Hops is about its chain of routed calls
-- Services/Conversion   app/services/conversion_service.py, app/schemas/conversion.py; Fallback is about
--               the direct route and the pipeline behind it
-- Services/Cost         app/services/cost_service.py, app/utils/tokens.py; Budget is about the check
-- Services/Ranker       app/services/ranker.py; Order is about the ranking, Weight about free models,
--               Stats about what is kept in Redis
-- Core/Encryption       app/core/security.py, the encryption of API keys
-- Services/Keys         app/services/key_service.py, app/db/repositories/key_repo.py; Coherence is about the
--               cache against the table, Rows about the table, RoundTrip, Duplicate and Listed about what users see
-- Services/Streaming    app/services/streaming.py; Frames is about the bytes of a stream, Sessions about a
--               WebSocket session
-- Services/Guardrails   app/services/guardrails.py; Redaction is about what a text is left with
-- Services/Cache        app/services/cache.py
-- Schemas/Chat          app/schemas/chat.py
-- Services/ChatSetup    app/services/chat_service.py, what the service is built with and its steps 1 and 2
-- Services/Chat         app/services/chat_service.py: `chat` is cut into `guard`, `lookup`, `from_cache` and
--               `answer`; Frame and Isolation are about the response cache between users, Cached about a
--               hit, Effects and Writes about the database, Context about who streams an answer
-- Db            the tables of the chat, app/db/session.py, app/db/repositories/conversation_repo.py;
--               Conversations is about deleting
-- Providers/Pairs       the pairs of modalities, and their print in app/api/v1/routes/models.py
-- Providers/Adapter     the classes of app/providers/*/adapter.py by what they declare
-- Providers/Catalogue   one child for each of app/providers/*/adapter.py; Served and Models are about what they
--               advertise
-- Providers/Mapping     app/providers/openai/mapping.py, the responses, and the loop of `stream_chat` in the
--               OpenAI-compatible adapters; Stream is about reading what a provider sends
-- Workers       app/workers/tasks/video_generation.py, and the poll in app/api/v1/routes/video.py; Jobs is about
--               what a poll says of a job that the worker has run
-- Providers/Polling     app/providers/replicate/adapter.py and app/providers/fal/adapter.py; Replicate/Ends is about what
--               becomes of a prediction, Fal/Waits about when a queued job returns
-- Api/Admin     app/api/v1/routes/admin.py; Rounds is about the failures that a switch records, Switch about the
--               switch itself
-- Services/Usage        app/services/usage_service.py; Groups is about grouping and ordering, Reports about the
--               summary and the days
-- Services/Files        app/services/file_service.py, app/models/file.py; Stored is about reading an upload back
-- Api/Uploads   what the upload routes share
-- Api/Files     app/api/v1/routes/files.py; Upload is about uploading
-- Api/Media     app/api/v1/routes/images.py, app/api/v1/routes/audio.py; Answers is about when they answer, and
--               Services/Router/Classes about what they get from the router
-- Tests         the code run on small inputs, and the theorems applied to them
--
-- A coroutine is a function from a world to a result and a world, so what an exception leaves
-- behind is seen. `route`, `failover` and `select` are `ModalityRouter.route`, split at its steps;
-- `dispatch` is `_dispatch`. `attempts` is the loop of `with_retry` by structural recursion on
-- the attempts that are left, so no fuel is needed anywhere; `local_*` and `redis_*` are the
-- breaker's private methods.
--
-- Times are in microseconds, refill rates in hundredths of a token per second, so that a token is
-- 10^8 units and a refill is exact, temperatures in hundredths, and money in 10^-8 dollars. Clocks
-- do not run backwards.
-- Redis keys are kept as their family and their fields. The pauses between retries, the metrics
-- and the clocks are functions on the world. Logging is left out.
--
-- Not modelled: settings, logging, telemetry, middleware and start-up, which only call frameworks;
-- the HTTP calls inside the adapters, which are the methods of a `Provider` here or of the client of
-- Providers/Polling, their requests, and the formats that are not OpenAI's; the other worker tasks, the
-- budget status of the usage service, and the routes that only read or queue: those of models, keys,
-- conversations, conversions, embeddings, chat and video apart from the poll, the listings of admins, and
-- the deletion of files, which calls a method that does not exist.
pub mod Base
pub mod Redis
pub mod Exceptions
pub mod Schemas
pub mod Core
pub mod Providers
pub mod Db
pub mod Services
pub mod Api
pub mod Workers
mod Tests
