-- ===== src/Settings/Groups.antt =====
-- The settings by group, with their defaults, and the cached `get_settings` (app/config/settings.py).
use cortex_rag.Base.{
  ◌≡◌, Bool, true, false, Option, none, some, List, [], ◌∷◌, ◌++◌, arith, ◌==◌, nat_eq, ℤ, pos,
  Text, text, text_eq,
}
use cortex_rag.Settings.{RawValue, parse_lists, UploadSettings, ProcessingSettings, ChatSettings}
use cortex_rag.Exec.{Result, ok, err, Exec}
use cortex_rag.Base.Int.{signed_decimal}

pub data Environment : Type 0 where
  development staging production testing : Environment

abbrev pub environment_value : Environment → Text
environment_value development = text "development"
environment_value staging = text "staging"
environment_value production = text "production"
environment_value testing = text "testing"

pub record AppSettings : Type 0 where
  pub name : Text
  pub env : Environment
  pub debug : Bool
  pub host : Text
  pub port : ℤ
  pub log_level : Text
  pub log_json : Bool
  pub cors_origins : List Text

-- `self.env == Environment.PRODUCTION`
abbrev pub is_production : AppSettings → Bool
is_production s = environment_value s.env == environment_value production

-- `_parse_cors_origins`, then the check of the field's type.
unfoldable pub read_cors_origins : (Text → Result RawValue) → RawValue → Result (List Text)
unfolding parse_lists
read_cors_origins json_loads value = parse_lists json_loads value

pub record DatabaseSettings : Type 0 where
  pub host : Text
  pub port : ℤ
  pub user : Text
  pub password : Text
  pub name : Text
  pub echo : Bool

-- What `PostgresDsn.build` is given.
pub record DsnParts : Type 0 where
  pub scheme : Text
  pub username : Text
  pub password : Text
  pub host : Text
  pub port : ℤ
  pub path : Text

-- `async_dsn`; `build_dsn` is the library's.
abbrev pub async_dsn : (DsnParts → Text) → DatabaseSettings → Text
async_dsn build_dsn s = build_dsn (record {
  scheme = text "postgresql+asyncpg";
  username = s.user;
  password = s.password;
  host = s.host;
  port = s.port;
  path = s.name;
})

pub record VectorSettings : Type 0 where
  pub host : Text
  pub port : ℤ
  pub collection : Text
  pub vector_size : ℤ

pub record GeminiSettings : Type 0 where
  pub api_key : Text
  pub model : Text

pub record EmbeddingSettings : Type 0 where
  pub model : Text
  pub dimension : ℤ

pub record StorageSettings : Type 0 where
  pub local_path : Text
  pub page_image_format : Text

pub record RabbitMqSettings : Type 0 where
  pub host : Text
  pub port : ℤ
  pub user : Text
  pub password : Text
  pub queue : Text
  pub prefetch_count : ℤ

-- `RabbitMQSettings.url`
unfoldable pub url : RabbitMqSettings → Text
url s =
    text "amqp://"
    ++ (s.user
        ++ (text ":"
            ++ (s.password
                ++ (text "@" ++ (s.host ++ (text ":" ++ (signed_decimal s.port ++ text "/")))))))

pub record Settings : Type 0 where
  pub app : AppSettings
  pub db : DatabaseSettings
  pub vector : VectorSettings
  pub gemini : GeminiSettings
  pub chat : ChatSettings
  pub embedding : EmbeddingSettings
  pub storage : StorageSettings
  pub upload : UploadSettings
  pub processing : ProcessingSettings
  pub rabbitmq : RabbitMqSettings

-- What `Settings()` gives where no variable is set and no `.env` is there.
abbrev pub default_settings : Settings
default_settings = record {
  app = record {
    name = text "knowledge-service";
    env = development;
    debug = true;
    host = text "0.0.0.0";
    port = pos 8000;
    log_level = text "INFO";
    log_json = false;
    cors_origins = text "*" ∷ [];
  };
  db = record {
    host = text "localhost";
    port = pos 5432;
    user = text "knowledge";
    password = text "knowledge";
    name = text "knowledge";
    echo = false;
  };
  vector = record {
    host = text "localhost";
    port = pos 6333;
    collection = text "knowledge_chunks";
    vector_size = pos 1024;
  };
  gemini = record { api_key = []; model = text "gemini-3.5-flash" };
  chat = record {
    history_window = pos 20;
    system_prompt =
        text "You are a helpful assistant. Answer only using the provided context. "
        ++ text "If the context does not contain the answer, say you don't know.";
  };
  embedding = record { model = text "intfloat/multilingual-e5-large"; dimension = pos 1024 };
  storage = record { local_path = text "./storage"; page_image_format = text "webp" };
  upload = record {
    max_size_mb = pos 50;
    allowed_extensions = text "pdf" ∷ [];
    allowed_mime_types = text "application/pdf" ∷ [];
  };
  processing = record { max_retries = pos 3; default_priority = pos 0 };
  rabbitmq = record {
    host = text "localhost";
    port = pos 5672;
    user = text "guest";
    password = text "guest";
    queue = text "processing_jobs";
    prefetch_count = pos 10;
  };
}

-- What a process has cached of the settings, and the variables that it would read.
pub record SettingsCache {ℓ} (E : Type ℓ) : Type ℓ where
  pub cached : Option Settings
  pub variables : E

abbrev remember {ℓ} :
    {E : Type ℓ} → Result Settings → SettingsCache E → Result Settings × SettingsCache E
remember (ok s) c = (ok s, record c { cached = some s })
remember (err e) c = (err e, c)

-- `get_settings`: `lru_cache` keeps what was returned and nothing of a call that raised; `load` is
-- `Settings()`.
unfoldable pub get_settings {ℓ} :
    {E : Type ℓ} → (E → Result Settings) → Exec (SettingsCache E) Settings
get_settings load c = elim c.cached [ none ↦ remember (load c.variables) c | some s ↦ (ok s, c) ]

-- Once the settings were returned, they are returned again, whatever the variables have become, and
-- the cache is left as it is.
pub settings_are_kept {ℓ} :
    {E : Type ℓ} (load : E → Result Settings) (c : SettingsCache E) {s : Settings} (later : E)
    → (get_settings load c).0 ≡ ok s
    → get_settings load (record (get_settings load c).1 { variables = later })
      ≡ (ok s, record { cached = some s; variables = later })
unfolding get_settings
settings_are_kept load c later h = ground arith
