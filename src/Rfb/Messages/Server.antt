-- ===== src/Rfb/Messages/Server.antt =====
-- The messages that a server sends (rfb.h).
use vncmanager.Base.{ℕ, ◌++◌, [], ◌∷◌, drop}
use vncmanager.Rfb.Wire.{Wire, at, load16, load24, load32, mem16, mem24, mem32, swap16, swap32}
use vncmanager.Rfb.Pixel
use vncmanager.Rfb.Pixel.{PixelFormat}

pub record ServerInitMessage : Type 0 where
  pub framebuffer_width : ℕ
  pub framebuffer_height : ℕ
  pub server_pixel_format : PixelFormat
  pub name_length : ℕ

abbrev pub server_init_message : Wire ServerInitMessage
server_init_message = record {
  size = 24;
  hton = λ m. record m {
    framebuffer_width = swap16 m.framebuffer_width;
    framebuffer_height = swap16 m.framebuffer_height;
    server_pixel_format = Pixel.hton m.server_pixel_format;
    name_length = swap32 m.name_length;
  };
  ntoh = λ m. record m {
    framebuffer_width = swap16 m.framebuffer_width;
    framebuffer_height = swap16 m.framebuffer_height;
    server_pixel_format = Pixel.ntoh m.server_pixel_format;
    name_length = swap32 m.name_length;
  };
  to_mem = λ m.
      mem16 m.framebuffer_width
      ++ mem16 m.framebuffer_height
      ++ Pixel.to_mem m.server_pixel_format
      ++ mem32 m.name_length;
  of_mem = λ bs. record {
    framebuffer_width = load16 bs 0;
    framebuffer_height = load16 bs 2;
    server_pixel_format = Pixel.of_mem (drop 4 bs);
    name_length = load32 bs 20;
  };
}

pub record FramebufferUpdateMessage : Type 0 where
  pub type : ℕ
  pub padding : ℕ
  pub number_of_rectangles : ℕ

abbrev pub framebuffer_update_message : Wire FramebufferUpdateMessage
framebuffer_update_message = record {
  size = 4;
  hton = λ m. record m { number_of_rectangles = swap16 m.number_of_rectangles };
  ntoh = λ m. record m { number_of_rectangles = swap16 m.number_of_rectangles };
  to_mem = λ m. m.type ∷ [] ++ m.padding ∷ [] ++ mem16 m.number_of_rectangles;
  of_mem = λ bs. record { type = at bs 0; padding = at bs 1; number_of_rectangles = load16 bs 2 };
}

pub record FramebufferUpdateRectangle : Type 0 where
  pub x_position : ℕ
  pub y_position : ℕ
  pub width : ℕ
  pub height : ℕ
  pub encoding_type : ℕ

abbrev pub framebuffer_update_rectangle : Wire FramebufferUpdateRectangle
framebuffer_update_rectangle = record {
  size = 12;
  hton = λ m. record m {
    x_position = swap16 m.x_position;
    y_position = swap16 m.y_position;
    width = swap16 m.width;
    height = swap16 m.height;
    encoding_type = swap32 m.encoding_type;
  };
  ntoh = λ m. record m {
    x_position = swap16 m.x_position;
    y_position = swap16 m.y_position;
    width = swap16 m.width;
    height = swap16 m.height;
    encoding_type = swap32 m.encoding_type;
  };
  to_mem = λ m.
      mem16 m.x_position
      ++ mem16 m.y_position
      ++ mem16 m.width
      ++ mem16 m.height
      ++ mem32 m.encoding_type;
  of_mem = λ bs. record {
    x_position = load16 bs 0;
    y_position = load16 bs 2;
    width = load16 bs 4;
    height = load16 bs 6;
    encoding_type = load32 bs 8;
  };
}

pub record SetColourMapEntriesMessage : Type 0 where
  pub type : ℕ
  pub padding : ℕ
  pub first_colour : ℕ
  pub number_of_colours : ℕ

abbrev pub set_colour_map_entries_message : Wire SetColourMapEntriesMessage
set_colour_map_entries_message = record {
  size = 6;
  hton = λ m. record m {
    first_colour = swap16 m.first_colour;
    number_of_colours = swap16 m.number_of_colours;
  };
  ntoh = λ m. record m {
    first_colour = swap16 m.first_colour;
    number_of_colours = swap16 m.number_of_colours;
  };
  to_mem = λ m. m.type ∷ [] ++ m.padding ∷ [] ++ mem16 m.first_colour ++ mem16 m.number_of_colours;
  of_mem = λ bs. record {
    type = at bs 0;
    padding = at bs 1;
    first_colour = load16 bs 2;
    number_of_colours = load16 bs 4;
  };
}

pub record ColourMapEntry : Type 0 where
  pub red : ℕ
  pub green : ℕ
  pub blue : ℕ

abbrev pub colour_map_entry : Wire ColourMapEntry
colour_map_entry = record {
  size = 6;
  hton = λ m. record m { red = swap16 m.red; green = swap16 m.green; blue = swap16 m.blue };
  ntoh = λ m. record m { red = swap16 m.red; green = swap16 m.green; blue = swap16 m.blue };
  to_mem = λ m. mem16 m.red ++ mem16 m.green ++ mem16 m.blue;
  of_mem = λ bs. record { red = load16 bs 0; green = load16 bs 2; blue = load16 bs 4 };
}

pub record BellMessage : Type 0 where
  pub type : ℕ

abbrev pub bell_message : Wire BellMessage
bell_message = record {
  size = 1;
  hton = λ m. m;
  ntoh = λ m. m;
  to_mem = λ m. m.type ∷ [];
  of_mem = λ bs. record { type = at bs 0 };
}

pub record ServerCutTextMessage : Type 0 where
  pub type : ℕ
  pub padding : ℕ
  pub text_length : ℕ

abbrev pub server_cut_text_message : Wire ServerCutTextMessage
server_cut_text_message = record {
  size = 8;
  hton = λ m. record m { text_length = swap32 m.text_length };
  ntoh = λ m. record m { text_length = swap32 m.text_length };
  to_mem = λ m. m.type ∷ [] ++ mem24 m.padding ++ mem32 m.text_length;
  of_mem = λ bs. record { type = at bs 0; padding = load24 bs 1; text_length = load32 bs 4 };
}

pub record ExtendedDesktopSizeRectangleData : Type 0 where
  pub number_of_screens : ℕ
  pub padding : ℕ

abbrev pub extended_desktop_size_rectangle_data : Wire ExtendedDesktopSizeRectangleData
extended_desktop_size_rectangle_data = record {
  size = 4;
  hton = λ m. m;
  ntoh = λ m. m;
  to_mem = λ m. m.number_of_screens ∷ [] ++ mem24 m.padding;
  of_mem = λ bs. record { number_of_screens = at bs 0; padding = load24 bs 1 };
}
