-- ===== src/Appearance/Palettes/SaffronMulberryGraphite.antt =====
-- The palettes saffron, mulberry and graphite of web/src/theme.ts.
use file_harbor.Base.{codes}
use file_harbor.Appearance.Colors.{FullPaletteScheme}

abbrev pub saffron_light : FullPaletteScheme
saffron_light = record {
  primary = record {
    main = codes "#8C6116";
    light = codes "#B98A38";
    dark = codes "#69470E";
    contrast_text = codes "#FCFAF4";
  };
  secondary = record {
    main = codes "#526C5A";
    light = codes "#829A88";
    dark = codes "#394F41";
    contrast_text = codes "#FCFAF4";
  };
  canvas = codes "#F8F2E5";
  paper = codes "#FCFAF4";
  app_bar = codes "#F0E5CA";
  overlay = codes "#FBF6EA";
  table_header = codes "#F4EAD5";
  text = record {
    primary = codes "#372D1B";
    secondary = codes "#6A5E43";
    disabled = codes "#887A5E";
  };
  divider = codes "#E3D2AE";
  action = record {
    hover = codes "#F3E8D0";
    selected = codes "#EEDCB4";
    disabled = codes "#887A5E";
    disabled_background = codes "#EDE5D5";
  };
  focus = codes "#69470E";
  shadow = codes "#69470E";
  texture = record {
    dot = codes "134 92 19";
    wash = codes "185 138 56";
    glow = codes "104 134 105";
  };
}

abbrev pub saffron_dark : FullPaletteScheme
saffron_dark = record {
  primary = record {
    main = codes "#E9C56E";
    light = codes "#F3DB9C";
    dark = codes "#BD9137";
    contrast_text = codes "#241B0E";
  };
  secondary = record {
    main = codes "#AFD0B6";
    light = codes "#CEE4D1";
    dark = codes "#7EAA8A";
    contrast_text = codes "#241B0E";
  };
  canvas = codes "#241B0E";
  paper = codes "#322715";
  app_bar = codes "#1C150A";
  overlay = codes "#3D301A";
  table_header = codes "#2C2111";
  text = record {
    primary = codes "#FAF2DF";
    secondary = codes "#D8C8A9";
    disabled = codes "#9E8D69";
  };
  divider = codes "#59482A";
  action = record {
    hover = codes "#40321A";
    selected = codes "#574523";
    disabled = codes "#9E8D69";
    disabled_background = codes "#382B16";
  };
  focus = codes "#E9C56E";
  shadow = codes "#0B0702";
  texture = record {
    dot = codes "247 229 183";
    wash = codes "200 151 55";
    glow = codes "180 211 184";
  };
}

abbrev pub mulberry_light : FullPaletteScheme
mulberry_light = record {
  primary = record {
    main = codes "#6F3E63";
    light = codes "#9C6B91";
    dark = codes "#522C49";
    contrast_text = codes "#FCF9FB";
  };
  secondary = record {
    main = codes "#526475";
    light = codes "#8293A4";
    dark = codes "#394959";
    contrast_text = codes "#FCF9FB";
  };
  canvas = codes "#F5EFF4";
  paper = codes "#FCF9FB";
  app_bar = codes "#ECE2EA";
  overlay = codes "#F8F3F7";
  table_header = codes "#F0E8EF";
  text = record {
    primary = codes "#352936";
    secondary = codes "#695A69";
    disabled = codes "#867787";
  };
  divider = codes "#DFD0DE";
  action = record {
    hover = codes "#F0E5EF";
    selected = codes "#E5D3E2";
    disabled = codes "#867787";
    disabled_background = codes "#EBE2EA";
  };
  focus = codes "#522C49";
  shadow = codes "#522C49";
  texture = record {
    dot = codes "105 59 93";
    wash = codes "149 88 132";
    glow = codes "96 123 145";
  };
}

abbrev pub mulberry_dark : FullPaletteScheme
mulberry_dark = record {
  primary = record {
    main = codes "#E0AED0";
    light = codes "#EFD0E5";
    dark = codes "#B57DA5";
    contrast_text = codes "#251723";
  };
  secondary = record {
    main = codes "#B5C9DF";
    light = codes "#D5E0EF";
    dark = codes "#839DB9";
    contrast_text = codes "#251723";
  };
  canvas = codes "#251723";
  paper = codes "#332034";
  app_bar = codes "#1D121C";
  overlay = codes "#402943";
  table_header = codes "#2D1C2E";
  text = record {
    primary = codes "#F8EFF7";
    secondary = codes "#D4C3D2";
    disabled = codes "#998A98";
  };
  divider = codes "#584257";
  action = record {
    hover = codes "#422B43";
    selected = codes "#583958";
    disabled = codes "#998A98";
    disabled_background = codes "#392439";
  };
  focus = codes "#E0AED0";
  shadow = codes "#0A0509";
  texture = record {
    dot = codes "244 223 240";
    wash = codes "188 126 174";
    glow = codes "181 201 223";
  };
}

abbrev pub graphite_light : FullPaletteScheme
graphite_light = record {
  primary = record {
    main = codes "#4F5962";
    light = codes "#7C8992";
    dark = codes "#384149";
    contrast_text = codes "#FAFBFB";
  };
  secondary = record {
    main = codes "#466D73";
    light = codes "#78999D";
    dark = codes "#315156";
    contrast_text = codes "#FAFBFB";
  };
  canvas = codes "#F0F2F2";
  paper = codes "#FAFBFB";
  app_bar = codes "#E5E9E9";
  overlay = codes "#F6F8F8";
  table_header = codes "#E9ECEC";
  text = record {
    primary = codes "#2A3133";
    secondary = codes "#5D686B";
    disabled = codes "#7B8587";
  };
  divider = codes "#D1D8D8";
  action = record {
    hover = codes "#E7EBEB";
    selected = codes "#D9E1E1";
    disabled = codes "#7B8587";
    disabled_background = codes "#E3E7E7";
  };
  focus = codes "#384149";
  shadow = codes "#384149";
  texture = record {
    dot = codes "75 86 91";
    wash = codes "112 126 130";
    glow = codes "89 138 145";
  };
}

abbrev pub graphite_dark : FullPaletteScheme
graphite_dark = record {
  primary = record {
    main = codes "#C2CBD0";
    light = codes "#DCE2E5";
    dark = codes "#909DA5";
    contrast_text = codes "#1C2224";
  };
  secondary = record {
    main = codes "#A7CED0";
    light = codes "#C8E2E2";
    dark = codes "#759FA1";
    contrast_text = codes "#1C2224";
  };
  canvas = codes "#1C2224";
  paper = codes "#273033";
  app_bar = codes "#171C1E";
  overlay = codes "#313C3F";
  table_header = codes "#222A2D";
  text = record {
    primary = codes "#F0F4F4";
    secondary = codes "#C5CDCD";
    disabled = codes "#8C9898";
  };
  divider = codes "#424D50";
  action = record {
    hover = codes "#354143";
    selected = codes "#435256";
    disabled = codes "#8C9898";
    disabled_background = codes "#2D3638";
  };
  focus = codes "#C2CBD0";
  shadow = codes "#060809";
  texture = record {
    dot = codes "225 232 232";
    wash = codes "143 159 162";
    glow = codes "167 208 208";
  };
}
