-- ===== src/Tests/Threads.antt =====
-- A thread, a message, and the cache and the database that answer it.
use image_app.Common.{
  ℕ, ◌+◌, ◌-◌, ◌≡◌, refl, ◌∙◌, false, true, none, some, [], ◌∷◌, ◌++◌, Bytes, codes, ok, replicate,
  length, pos, arith,
}
use image_app.Tests.Data.{fixed, fixed_quality}
use image_app.CString.{cstr, strstr, strstr_block, starts_with, same}
use image_app.Request.Status.{request_received, get_cmd}
use image_app.Request.Accept.{png, get_list_accept_image, tokens, discarded}
use image_app.Request.Receive.{bytes, is_complete, receive_request, receive_loop}
use image_app.Request.Parse.{Request, new_request, parse_request}
use image_app.ThreadPool.{ThreadData, Pool, new_slot, occupied}
use image_app.DeviceCache.{value_db, query_of, CacheQuery, retrieve_dim_from_db, find_query}
use image_app.ImageCache.Lookup.{Entry, flat, first_match}
use image_app.ImageCache.State.{Represents}
use image_app.ImageCache.Contents.{find_file_in_cache_lem}
use image_app.Request.Lines.{get_command_line, parse_command, get_user_agent, get_accept_line}
use image_app.Request.Name.{parse_name}
use image_app.Strings.CacheName.{build_image_name_cache}
use image_app.Strings.Decimal.{convert_int_to_string}
use image_app.ImageCache.{FileCache, cached_image, find_file_in_cache, cached_file}
use image_app.Image.{Magick, ImageInfo}
use image_app.Transfer.{room}
use image_app.Client.{live, Thread, Inputs}
use image_app.Client.Round.{image_of}

-- ImageMagick, for files without a picture.
abbrev pub no_magick : Magick
no_magick = record {
  Wand = ℕ;
  blank = 0;
  read = λ path. none;
  width = λ w. 0;
  height = λ w. 0;
  colors = λ w. 0;
  write = λ w f q x y c. false;
}

abbrev pub client_slot : ThreadData
client_slot = occupied 9 0 (new_slot 0 0)

abbrev pub client_pool : Pool
client_pool = record { end = 0; arr = client_slot ∷ []; counter = pos 2 }

abbrev path_cat : Bytes
path_cat = codes "../cache/cat1.000000001080192025.jpg"

abbrev pub cat : Entry
cat = record { path = path_cat; fd = 7; file_size = 4 }

abbrev pub one_image : FileCache
one_image = record {
  map = flat (cat ∷ []) ++ replicate (16383 - length path_cat) 0;
  seek = length path_cat + 1;
  fds = 7 ∷ replicate 127 0;
  sizes = 4 ∷ replicate 127 0;
  end = 1;
}

pub one_image-Represents : Represents one_image (cat ∷ [])
one_image-Represents = record {
  spare = 16383 - length path_cat;
  file = refl;
  whole = refl;
  paths = (record { clean = omega arith; short = omega arith; some_byte = omega arith }, tt);
  seek_end = refl;
  fd_end = refl;
  fd_table = (replicate 127 0, refl, refl);
  size_table = (replicate 127 0, refl, refl);
}

abbrev phone : CacheQuery
phone = record {
  query = query_of (codes "Nexus");
  state = value_db;
  display = record { colors = pos 25; width = pos 1080; height = pos 1920 };
}

-- A thread between two messages of its first client.
abbrev pub thread : Thread
thread = record {
  idx = 0;
  messages = replicate 5 (replicate 512 0);
  request = live false;
  image_info = live tt;
  pool = client_pool;
  max_descriptor = 2;
  devices = record { entries = phone ∷ []; idx_cache = 1 };
  images = one_image;
  log = [];
}

abbrev pub hang_up : Inputs
hang_up = record {
  arrivals = bytes [] ∷ [];
  answers = [];
  polls = [];
  database = λ q. ok none;
  disk = record { opened = pos 5; size = some 0 };
  content = [];
  icon = record { file_size = 0; ext = []; file = [] };
  stack = [];
  clock = λ e. codes "2017-11-26 10:00:00";
  unreturned = 0;
}

abbrev pub message_text : Bytes
message_text =
    codes
      "GET /?cat.jpg HTTP/1.1\r\nUser-Agent: Nexus\r\nAccept: image/png\r\nConnection: close\r\n"

abbrev pub message : Bytes
message = message_text ++ replicate (512 - length message_text) 0

pub message_arrived :
    receive_request (bytes message_text ∷ []) (replicate 512 0)
    ≡ ok (some (request_received, message))
unfolding receive_request receive_loop is_complete cstr strstr strstr_block starts_with
message_arrived = refl

abbrev pub asked : Request fixed_quality
asked = record (new_request fixed_quality) {
  cmd = get_cmd;
  user_agent = some (codes "Nexus");
  image_name = some (codes "cat");
  ext = some (codes ".jpg");
  image_list = some (record { type = codes "image/png"; q = 100000000; extension = png } ∷ []);
}

pub message_parsed : parse_request fixed_quality message ≡ ok (request_received, asked)
unfolding parse_request parse_name get_command_line parse_command cstr strstr strstr_block
    starts_with get_accept_line get_user_agent get_list_accept_image tokens discarded same
message_parsed = refl

abbrev pub known : Request fixed_quality
known = record asked {
  cache_name = some (codes "cat1.000000001080192025" ++ 0 ∷ []);
  width = pos 1080;
  height = pos 1920;
  colors = pos 25;
}

pub phone_known :
    retrieve_dim_from_db fixed_quality fixed (λ x. x) (λ q. ok none) thread.devices asked
    ≡ ok (thread.devices, known)
unfolding retrieve_dim_from_db find_query query_of build_image_name_cache convert_int_to_string cstr
    strstr strstr_block starts_with
phone_known = refl

abbrev pub image_cat : ImageInfo fixed_quality no_magick (λ x. x)
image_cat = record {
  width = pos 1080;
  height = pos 1920;
  colors = pos 25;
  image_name = codes "cat";
  ext = codes ".jpg";
  image_list = record { type = codes "image/png"; q = 100000000; extension = png } ∷ [];
  cache_path = path_cat;
  image_path = codes "../images/cat.jpg";
}

pub image_named : image_of fixed_quality fixed (λ x. x) no_magick (λ x. x) known ≡ ok image_cat
unfolding image_of cstr
image_named = refl

pub cat_found : find_file_in_cache path_cat one_image.map ≡ ok (cached_image 0)
cat_found =
    find_file_in_cache_lem one_image (cat ∷ []) path_cat one_image-Represents (omega arith)
    ∙ unfold first_match strstr strstr_block starts_with in refl

abbrev pub ask : Inputs
ask = record hang_up {
  arrivals = bytes message_text ∷ [];
  answers = room 512 ∷ room 4 ∷ [];
  polls = true ∷ [];
  content = 1 ∷ 2 ∷ 3 ∷ 4 ∷ [];
  stack = replicate 512 0;
}

pub cat_stored : cached_file one_image 0 ≡ ok (7, 4)
unfolding cached_file
cat_stored = refl
