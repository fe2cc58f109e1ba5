-- ===== src/Streams/Tests.antt =====
-- `LocalStreamCenter` on examples.
use tms.Prelude.{ℕ, some, List, [], ◌∷◌, ◌≡◌, refl}
use tms.StdMap.{empty, entry, find, assign}
use tms.Streams.{Center, register_stream, unregister_stream, debug_get_random}
use tms.Streams.Keep.{IsValid}
use tms.Streams.Register.{Registered, register_stream_lem}
use tms.Streams.Unregister.{Unregistered, unregister_stream_lem}
use tms.Streams.Directory.{
  Request, register, unregister, look_up, serve, serve_table, serve_refines,
}
use tms.Streams.{get_media_publisher}

abbrev live : List ℕ
live = 108 ∷ 105 ∷ []

abbrev cam : List ℕ
cam = 99 ∷ []

abbrev nothing : Center ℕ
nothing = empty

nothing-IsValid : IsValid nothing
unfolding find
nothing-IsValid = record { apps = tt; streams = λ a m e. cc }

-- One stream of one application.
abbrev one : Center ℕ
one = entry live (entry cam 7 empty) empty

one-IsValid : IsValid one
unfolding register_stream find assign
one-IsValid = (register_stream_lem live cam 7 nothing nothing-IsValid).2

random_of_one : debug_get_random one ≡ some (live, cam, 7)
unfolding debug_get_random
random_of_one = refl

register_stream_lem_example : Registered live live 8 one (register_stream live live 8 one)
register_stream_lem_example = register_stream_lem live live 8 one one-IsValid

unregister_stream_lem_example : Unregistered live cam one (unregister_stream live cam one)
unregister_stream_lem_example = unregister_stream_lem live cam one one-IsValid

abbrev requests : List (Request ℕ)
requests =
    register live cam 8
    ∷ register cam cam 9
    ∷ unregister live cam
    ∷ look_up live cam
    ∷ look_up cam cam
    ∷ []

serve_refines_example :
    serve requests one ≡ serve_table requests (λ a s. get_media_publisher a s one)
serve_refines_example = serve_refines requests one one-IsValid
