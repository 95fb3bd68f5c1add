-- ===== src/Http/Server/Start.antt =====
-- The start of the server: `main` of ingestion-service/cmd/server/main.go with `Init` of
-- internal/db/db.go. `getenv` gives the environment, empty where a variable is not set.
use multi_tenant_siem.Base.{
  ℕ, String, ◌≡◌, refl, ◌↔◌, Bool, true, false, not, Option, none, some, [], ◌∷◌, arith, str_eq,
  if◌then◌else◌, concat,
}

-- `connStr`
unfoldable pub connection_string : (String → String) → String
connection_string getenv =
    let url = getenv "DATABASE_URL" in
    if str_eq url ""
    then concat (
        "host="
        ∷ getenv "DB_HOST"
        ∷ " port="
        ∷ getenv "DB_PORT"
        ∷ " user="
        ∷ getenv "DB_USER"
        ∷ " password="
        ∷ getenv "DB_PASSWORD"
        ∷ " dbname="
        ∷ getenv "DB_NAME"
        ∷ " sslmode=disable"
        ∷ [])
    else url

-- How the database answers: to Open with the text of the connection, to Ping, and to the schema.
pub record Postgres : Type 0 where
  pub opens : String → Bool
  pub pings : Bool
  pub takes_schema : Bool

-- A process that ends in `log.Fatal`, or goes on.
pub data Started : Type 0 where
  fatal : String → Started
  -- the workers that run, and the address on which the server listens
  serving : ℕ → String → Started

-- `db.Init`: the text of `log.Fatal`, if it fails.
unfoldable pub init_db : (String → String) → Postgres → Option String
unfolding connection_string
init_db getenv p =
    if not (p.opens (connection_string getenv))
    then some "Failed to open DB:"
    else if not p.pings
    then some "Failed to connect DB:"
    else if not p.takes_schema
    then some "Failed to initialize database schema:"
    else none

-- `":" + port`
unfoldable pub listen_address : (String → String) → String
listen_address getenv =
    let port = getenv "PORT" in concat (":" ∷ (if str_eq port "" then "8080" else port) ∷ [])

-- `main`, up to ListenAndServe.
unfoldable pub start : (String → String) → Postgres → Started
unfolding init_db listen_address
start getenv p = elim (init_db getenv p) [
  | some message ↦ fatal message
  | none ↦ serving 3 (listen_address getenv)
]

-- The server listens exactly if the database opens, answers and takes the schema.
pub start-serving :
    (getenv : String → String) (p : Postgres)
    → (start getenv p ≡ serving 3 (listen_address getenv))
      ↔ ((p.opens (connection_string getenv) ≡ true) × (p.pings ≡ true) × (p.takes_schema ≡ true))
unfolding start
start-serving getenv p = (λ h. ground arith, λ h. ground arith)

-- Where DATABASE_URL is set, no other variable counts for the connection.
pub connection_string-url :
    (getenv getenv' : String → String)
    → str_eq (getenv "DATABASE_URL") "" ≡ false
    → getenv' "DATABASE_URL" ≡ getenv "DATABASE_URL"
    → connection_string getenv' ≡ connection_string getenv
unfolding connection_string
connection_string-url getenv getenv' set same = rw (same, set) refl
