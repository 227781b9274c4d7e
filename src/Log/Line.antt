-- ===== src/Log/Line.antt =====
-- Each event adds one line to the log.
use image_app.Common.{ℕ, ◌≡◌, ◌≢◌, ◌⊎◌, ◌<◌, Option, none, some, [], ◌∷◌, ◌++◌, Bytes, Lacks}
use image_app.Log.{LoggedImage, stamp, log_connection_closed}

-- A text that ends with its only newline, and starts with `<<` and a time.
abbrev pub IsLine : Bytes → Type 0
IsLine t = (body : Bytes) × (t ≡ body ++ 10 ∷ []) × Lacks 10 body

-- The strings of an image hold no newline.
abbrev pub Printable : Option Bytes → Type 0
Printable none = Unit
Printable (some s) = Lacks 10 s

abbrev pub PrintableImage : Option LoggedImage → Type 0
PrintableImage none = Unit
PrintableImage (some i) = Printable i.cache_path × Printable i.image_name

-- What an event may add: a line with its time, or nothing if it is none of the six.
abbrev pub Added : Bytes → ℕ → Bytes → Type 0
Added time_buf event t =
    ((rest : Bytes) × (t ≡ stamp time_buf rest) × IsLine t)
    ⊎ (t ≡ []) × (4 < event) × (event ≢ log_connection_closed)
