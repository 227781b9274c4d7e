-- ===== src/Tests/Requests.antt =====
-- Request.c and Config.c: lines, names, media types and settings.
use image_app.Common.{
  ◌≡◌, refl, some, [], ◌∷◌, ◌++◌, Bytes, codes, ok, fault, replicate, arith, map,
}
use image_app.Request.Parse.{Request, new_request, parse_request}
use image_app.Request.Parse.Whole.{get_message, parse_request_image}
use image_app.Request.Parse.Results.{Answer, parse_request_answers}
use image_app.Request.Receive.{bytes, is_complete, receive_request}
use image_app.Request.Receive.Chunks.{padded, first_complete, receive_request_lem}
use image_app.CString.{cstr, strstr, strstr_block, starts_with}
use image_app.Request.Status.{request_received, get_cmd, icon_requested}
use image_app.Request.Lines.{get_command_line, parse_command}
use image_app.Request.Name.{parse_name}
use image_app.Request.Accept.{get_list_accept_image, tokens, discarded}
use image_app.Request.Accept.Sizes.{kept, plain_node, get_list_accept_image_overflow}
use image_app.Tests.Data.{fixed_quality}

abbrev line_start : Bytes
line_start = codes "GET "

abbrev rest_of_message : Bytes
rest_of_message = replicate 250 0

get_list_accept_image_overflow_example :
    get_list_accept_image fixed_quality (codes "image/png,image/jpg,image/webp,image/*") ≡ fault
unfolding kept tokens discarded strstr strstr_block starts_with
get_list_accept_image_overflow_example =
    get_list_accept_image_overflow fixed_quality (codes "image/png,image/jpg,image/webp,image/*")
      (omega arith)

abbrev icon_message : Bytes
icon_message = codes "GET /favicon.ico HTTP/1.1\r\n"

abbrev icon_request : Request fixed_quality
icon_request = record (new_request fixed_quality) {
  cmd = get_cmd;
  image_name = some (codes "favicon.ico");
}

icon_parsed : parse_request fixed_quality icon_message ≡ ok (icon_requested, icon_request)
unfolding parse_request parse_name get_command_line parse_command cstr strstr strstr_block
    starts_with
icon_parsed = refl

parse_request_answers_example : Answer fixed_quality (icon_requested, icon_request)
parse_request_answers_example = parse_request_answers fixed_quality icon_message icon_parsed

abbrev agent_piece : Bytes
agent_piece = codes "User-Agent: Nexus\r\n"

abbrev accept_piece : Bytes
accept_piece = codes "Accept: image/png\r\nConnection: close\r\n"

-- The second piece completes the message.
receive_request_lem_example :
    receive_request (bytes agent_piece ∷ bytes accept_piece ∷ bytes [] ∷ []) (replicate 512 0)
    ≡ ok (some (request_received, padded (agent_piece ++ accept_piece)))
unfolding first_complete is_complete strstr strstr_block starts_with
receive_request_lem_example =
    receive_request_lem (agent_piece ∷ accept_piece ∷ []) []
      ((omega arith, omega arith), ((omega arith, omega arith), tt)) (omega arith)

abbrev long_message : Bytes
long_message = replicate 512 b'x'

abbrev headers : Bytes
headers =
    codes "\nUser-Agent: Nexus\r\nAccept: image/png\r\nConnection: close\r\n" ++ replicate 300 0

parse_request_image_example :
    parse_request fixed_quality
      (get_message (codes "cat") (codes "jpeg") (codes "HTTP/1.1") headers)
    ≡ ok (
      request_received,
      record (new_request fixed_quality) {
        cmd = get_cmd;
        image_name = some (codes "cat");
        ext = some (codes ".jpe");
        user_agent = some (codes "Nexus");
        image_list = some (map (plain_node fixed_quality) (kept (tokens [] (codes "image/png"))));
      },
    )
unfolding strstr strstr_block starts_with kept tokens discarded
parse_request_image_example =
    parse_request_image fixed_quality (codes "cat") (codes "jpeg") (codes "HTTP/1.1") headers
      (codes "Nexus") (codes "image/png")
      (codes "\nAccept: image/png\r\nConnection: close\r\n" ++ replicate 300 0)
      (codes "\nConnection: close\r\n" ++ replicate 300 0) (omega arith) (omega arith) (omega arith)
      (omega arith) (omega arith) (omega arith) (omega arith) (omega arith) (omega arith) refl refl
      (omega arith) (omega arith) (omega arith) (omega arith) (omega arith) (omega arith)
      (omega arith) (omega arith) ((omega arith, refl), tt) (omega arith) (omega arith)
