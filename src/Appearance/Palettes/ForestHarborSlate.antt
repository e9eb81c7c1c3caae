-- ===== src/Appearance/Palettes/ForestHarborSlate.antt =====
-- The palettes forest, harbor and slate of web/src/theme.ts.
use file_harbor.Base.{codes}
use file_harbor.Appearance.Colors.{FullPaletteScheme}

abbrev pub forest_light : FullPaletteScheme
forest_light = record {
  primary = record {
    main = codes "#3C6A4D";
    light = codes "#70967A";
    dark = codes "#2D533B";
    contrast_text = codes "#FBF9F2";
  };
  secondary = record {
    main = codes "#286470";
    light = codes "#5C9299";
    dark = codes "#1D4C55";
    contrast_text = codes "#FBF9F2";
  };
  canvas = codes "#F3F0E7";
  paper = codes "#FBF9F2";
  app_bar = codes "#EDE9DE";
  overlay = codes "#F7F5EE";
  table_header = codes "#F4F1E8";
  text = record {
    primary = codes "#242820";
    secondary = codes "#596052";
    disabled = codes "#7A8074";
  };
  divider = codes "#D9D5C6";
  action = record {
    hover = codes "#E7EEE6";
    selected = codes "#DCE9DB";
    disabled = codes "#7A8074";
    disabled_background = codes "#E7E6DE";
  };
  focus = codes "#2D533B";
  shadow = codes "#2D533B";
  texture = record { dot = codes "67 84 54"; wash = codes "89 111 74"; glow = codes "37 99 109" };
}

abbrev pub forest_dark : FullPaletteScheme
forest_dark = record {
  primary = record {
    main = codes "#9EC6A0";
    light = codes "#C4DEC4";
    dark = codes "#729D77";
    contrast_text = codes "#171D18";
  };
  secondary = record {
    main = codes "#84C5CC";
    light = codes "#B4E0E2";
    dark = codes "#55939B";
    contrast_text = codes "#171D18";
  };
  canvas = codes "#171D18";
  paper = codes "#222A22";
  app_bar = codes "#121812";
  overlay = codes "#273027";
  table_header = codes "#1D251E";
  text = record {
    primary = codes "#F0F1E7";
    secondary = codes "#C1C7B9";
    disabled = codes "#899286";
  };
  divider = codes "#3B463C";
  action = record {
    hover = codes "#293329";
    selected = codes "#354635";
    disabled = codes "#899286";
    disabled_background = codes "#2A302A";
  };
  focus = codes "#9EC6A0";
  shadow = codes "#050806";
  texture = record {
    dot = codes "219 231 207";
    wash = codes "128 159 113";
    glow = codes "100 172 180";
  };
}

abbrev pub harbor_light : FullPaletteScheme
harbor_light = record {
  primary = record {
    main = codes "#236676";
    light = codes "#5A92A0";
    dark = codes "#174D5A";
    contrast_text = codes "#F7FBFA";
  };
  secondary = record {
    main = codes "#3F7079";
    light = codes "#77A0A6";
    dark = codes "#29555D";
    contrast_text = codes "#F7FBFA";
  };
  canvas = codes "#EDF3F2";
  paper = codes "#F7FBFA";
  app_bar = codes "#E3EFED";
  overlay = codes "#F2F8F7";
  table_header = codes "#EAF3F1";
  text = record {
    primary = codes "#203035";
    secondary = codes "#52676A";
    disabled = codes "#748185";
  };
  divider = codes "#CCDDDB";
  action = record {
    hover = codes "#E1EFED";
    selected = codes "#D0E6E3";
    disabled = codes "#748185";
    disabled_background = codes "#E0E8E6";
  };
  focus = codes "#174D5A";
  shadow = codes "#174D5A";
  texture = record {
    dot = codes "45 90 101";
    wash = codes "55 116 132";
    glow = codes "81 145 157";
  };
}

abbrev pub harbor_dark : FullPaletteScheme
harbor_dark = record {
  primary = record {
    main = codes "#8EC8D3";
    light = codes "#B8E1E7";
    dark = codes "#5A9EAA";
    contrast_text = codes "#142022";
  };
  secondary = record {
    main = codes "#A1D2D5";
    light = codes "#C3E5E6";
    dark = codes "#6EA6AA";
    contrast_text = codes "#142022";
  };
  canvas = codes "#142022";
  paper = codes "#1D2C2E";
  app_bar = codes "#101B1D";
  overlay = codes "#263638";
  table_header = codes "#192729";
  text = record {
    primary = codes "#EDF5F4";
    secondary = codes "#C1D0CE";
    disabled = codes "#80908F";
  };
  divider = codes "#344A4B";
  action = record {
    hover = codes "#293D3E";
    selected = codes "#345153";
    disabled = codes "#80908F";
    disabled_background = codes "#273334";
  };
  focus = codes "#8EC8D3";
  shadow = codes "#05090A";
  texture = record {
    dot = codes "212 235 238";
    wash = codes "105 168 181";
    glow = codes "154 205 208";
  };
}

abbrev pub slate_light : FullPaletteScheme
slate_light = record {
  primary = record {
    main = codes "#4C617C";
    light = codes "#7B91AD";
    dark = codes "#36485F";
    contrast_text = codes "#FAFBFD";
  };
  secondary = record {
    main = codes "#3E6B77";
    light = codes "#7397A0";
    dark = codes "#294F59";
    contrast_text = codes "#FAFBFD";
  };
  canvas = codes "#EFF2F6";
  paper = codes "#FAFBFD";
  app_bar = codes "#E5EAF0";
  overlay = codes "#F6F8FB";
  table_header = codes "#E9EDF3";
  text = record {
    primary = codes "#29313D";
    secondary = codes "#5C6775";
    disabled = codes "#7A8491";
  };
  divider = codes "#D2D9E2";
  action = record {
    hover = codes "#E7ECF3";
    selected = codes "#D9E2EF";
    disabled = codes "#7A8491";
    disabled_background = codes "#E4E8ED";
  };
  focus = codes "#36485F";
  shadow = codes "#36485F";
  texture = record {
    dot = codes "70 84 106";
    wash = codes "83 107 139";
    glow = codes "94 137 151";
  };
}

abbrev pub slate_dark : FullPaletteScheme
slate_dark = record {
  primary = record {
    main = codes "#B5C6E1";
    light = codes "#D7E1F1";
    dark = codes "#8398B7";
    contrast_text = codes "#191D26";
  };
  secondary = record {
    main = codes "#9FC9D1";
    light = codes "#C3E0E4";
    dark = codes "#6D9FA9";
    contrast_text = codes "#191D26";
  };
  canvas = codes "#191D26";
  paper = codes "#242A35";
  app_bar = codes "#151922";
  overlay = codes "#2D3440";
  table_header = codes "#202631";
  text = record {
    primary = codes "#F0F3F8";
    secondary = codes "#C4CBD6";
    disabled = codes "#8993A0";
  };
  divider = codes "#404957";
  action = record {
    hover = codes "#303846";
    selected = codes "#3A4759";
    disabled = codes "#8993A0";
    disabled_background = codes "#2B303B";
  };
  focus = codes "#B5C6E1";
  shadow = codes "#06070A";
  texture = record {
    dot = codes "224 231 244";
    wash = codes "141 164 200";
    glow = codes "148 188 200";
  };
}
