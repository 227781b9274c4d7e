-- ===== src/Log.antt =====
-- `write_event_log` of Log.c: the line that an event adds to the log file.
pub mod Line
use image_app.Common.{
  ℕ, zero, suc, ◌+◌, ◌*◌, ◌/◌, ◌%◌, ◌^◌, ◌≡◌, refl, Option, none, some, List, [], ◌∷◌, ◌++◌, Bytes,
  codes, Outcome, ok, exit, fault, ◌>>=◌, ◌==◌, if◌then◌else◌,
}
use image_app.Strings.Decimal.Fill.{decimal}

-- `enum event_type`, and the status that `close_client_with_status` passes in its place.
abbrev pub connection_accepted : ℕ
connection_accepted = 0

abbrev pub log_image_requested : ℕ
log_image_requested = 1

abbrev pub log_empty_message : ℕ
log_empty_message = 2

abbrev pub log_max_num_requests : ℕ
log_max_num_requests = 3

abbrev pub log_image_not_present : ℕ
log_image_not_present = 4

abbrev pub log_connection_closed : ℕ
log_connection_closed = 12

-- The two strings of `struct image_t` that are printed; a null pointer is `none`.
pub record LoggedImage : Type 0 where
  pub cache_path : Option Bytes
  pub image_name : Option Bytes

-- The conversion %d of a number that is not negative.
unfoldable pub percent_d : ℕ → Bytes
percent_d zero = b'0' ∷ []
percent_d (suc n) = decimal (suc n)

-- `struct sockaddr_in` as one number: the four bytes of sin_addr from the first on, which is the
-- highest, and the two bytes of sin_port below them.
octet : ℕ → ℕ → Bytes
unfolding percent_d
octet client_addr place = percent_d (client_addr / 256 ^ place % 256)

unfoldable pub inet_ntoa : ℕ → Bytes
unfolding octet
inet_ntoa a = octet a 5 ++ (b'.' ∷ (octet a 4 ++ (b'.' ∷ (octet a 3 ++ (b'.' ∷ octet a 2)))))

unfoldable pub ntohs : ℕ → ℕ
ntohs a = a % 256 ^ 2

-- What each line starts with. `time_buf` is the text of strftime.
unfoldable pub stamp : Bytes → Bytes → Bytes
stamp time_buf rest = codes "<<" ++ (time_buf ++ (codes ">> : " ++ rest))

-- %s of a null pointer is undefined.
printed : Option Bytes → (Bytes → Bytes) → Outcome Bytes
printed none line = fault
printed (some s) line = ok (line s)

-- `image->…` of a null image is undefined.
of_image : Option LoggedImage → (LoggedImage → Option Bytes) → Outcome (Option Bytes)
of_image none field = fault
of_image (some image) field = ok (field image)

with_port : Bytes → Bytes → ℕ → Bytes
with_port what middle a =
    what ++ (inet_ntoa a ++ (middle ++ (percent_d (ntohs a) ++ codes " port\n")))

with_client : ℕ → Bytes → Bytes
with_client a rest = codes "the client " ++ (inet_ntoa a ++ rest)

-- The text that is added to the file.
unfoldable pub write_event_log : Bytes → ℕ → ℕ → Option LoggedImage → Outcome Bytes
unfolding printed of_image with_port with_client
write_event_log time_buf event a image =
    if event == connection_accepted
    then ok (
        stamp time_buf
          (with_port (codes "a client has connected. Its address is ") (codes " and was given ") a))
    else if event == log_image_requested
    then (of_image image (λ i. i.cache_path) >>= λ path.
        printed path (λ s.
          stamp time_buf (with_client a (codes " has requested " ++ (s ++ codes " image\n")))))
    else if event == log_empty_message
    then ok (stamp time_buf (with_client a (codes " has disconnected\n")))
    else if event == log_max_num_requests
    then ok (stamp time_buf (with_client a (codes " has finished its number of requests\n")))
    else if event == log_image_not_present
    then (of_image image (λ i. i.image_name) >>= λ name. printed name (λ s. stamp time_buf (
        with_client a
          (codes " has requested the image " ++ (s ++ codes " that is not present\n")))))
    else if event == log_connection_closed
    then ok (
        stamp time_buf (
          with_port (codes "a client has disconnected. Its address was ") (codes " and was given ")
            a))
    else ok []
